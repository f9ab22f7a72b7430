-- ===== src/Files/Finishing.antt =====
-- backend/app/modules/files/service.py: what the transaction of a verified upload leaves.
use app_template.Prelude.{
  ℕ, String, false, Option, none, some, List, [], ◌∷◌, ◌==◌, ◌≡◌, refl, sym, ◌∙◌, ap, subst, arith,
  inl, inr, Bool-cases, ==_refl,
}
use app_template.Models.Files.{File}
use app_template.Models.Jobs.{Job, JobStatus}
use app_template.Models.Errors.{Result, ok, err, bind-ok}
use text.Mathlib.TextPositions.{eq_refl}
use app_template.Outbox.Service.{create_dispatch_event}
use app_template.Outbox.Insertion.{create_dispatch_event-ok}
use app_template.Jobs.Claim.{schedule_job, queued_job, id_or}
use app_template.Database.{Db, Env, insert_job, insert_job-ok}
use app_template.Database.App.{AppDb, check}
use app_template.Files.Tables.{file_by_id, put_file, find_file}
use app_template.Files.Service.{
  finish_completion, with_upload, with_job, uploaded_file, CompletionAnswers,
  find_job_by_input_reference, job_id_of,
}
use app_template.Files.Upload.{job_type_file_processing}
use app_template.Files.Invariant.{IsSeen, file_by_id-put}
use app_template.Files.Verification.{IsVerified}

-- A scheduled job is the newest of the table.
schedule_job-newest :
    (env : Env) (o : ℕ) (job_type ref : String) (actor job_id : Option ℕ) (fresh : ℕ) (db db' : Db)
    (j : Job)
    → schedule_job env o job_type ref actor job_id fresh db ≡ ok (j, db')
    → (j ≡ queued_job env o job_type ref actor (id_or job_id fresh)) × (db'.jobs ≡ j ∷ db.jobs)
unfolding schedule_job
schedule_job-newest env o job_type ref actor job_id fresh db db' j h =
    let job = queued_job env o job_type ref actor (id_or job_id fresh) in
    let (db₁, inserted, rest) = bind-ok (insert_job job db) _ h in
    let (db₂, created, same) =
      bind-ok (create_dispatch_event o job.id env.new_dispatch none env.now env.now db₁) _ rest in
    let same_job : j ≡ job = (let equal = same in cc) in
    let same_db : db' ≡ db₂ = (let equal = same in cc) in
    (
      same_job,
      ap (λ (d : Db). d.jobs)
            (same_db
              ∙ create_dispatch_event-ok o job.id env.new_dispatch none env.now env.now db₁ db₂
                  created)
          ∙ ap (λ (d : Db). d.jobs) (insert_job-ok job db db₁ inserted)
          ∙ ap (λ x. x ∷ db.jobs) (sym same_job),
    )

-- A job of the processing of file `f`, the only one that the tables `after` have over `db`.
pub record IsOneJob (f : File) (ref : String) (db after : AppDb) (job : Option ℕ) : Type 0 where
  pub added : Job
  pub one_job : after.core.jobs ≡ added ∷ db.core.jobs
  pub returned : job ≡ some added.id
  pub is_waiting : added.status ≡ JobStatus.queued
  pub of_tenant : added.organisation_id ≡ f.organisation_id
  pub of_kind : added.job_type ≡ job_type_file_processing
  pub of_file : added.input_reference ≡ ref

-- The transaction of a verified upload wrote the row and scheduled the job that it returns.
pub record IsFinished (f : File) (ref : String) (db db' : AppDb) (g : File) (job : Option ℕ)
    : Type 0 where
  pub row : file_by_id f.id db'.files ≡ some g
  pub visible : find_file f.organisation_id f.id db'.files ≡ some g
  pub scheduled :
      job
      ≡ job_id_of
          (find_job_by_input_reference f.organisation_id job_type_file_processing ref db'.core.jobs)
  pub scheduled_one : IsOneJob f ref db db' job

find_newest :
    (env : Env) (o id : ℕ) (ref : String) (actor : Option ℕ) (js : List Job)
    → find_job_by_input_reference o job_type_file_processing ref
        (queued_job env o job_type_file_processing ref actor id ∷ js)
      ≡ some (queued_job env o job_type_file_processing ref actor id)
unfolding find_job_by_input_reference queued_job
find_newest env o id ref actor js = rw (==_refl o, eq_refl ref) refl

put_visible :
    (o k : ℕ) (f g : File) (fs : List File)
    → g.id ≡ k
    → g.organisation_id ≡ o
    → g.deleted_at ≡ none
    → file_by_id k fs ≡ some f
    → find_file o k (put_file g fs) ≡ some g
unfolding find_file
put_visible o k f g [] same_id same_org unmarked row = cc
put_visible o k f g (x ∷ fs) same_id same_org unmarked row = elim (Bool-cases (x.id == g.id)) [
  | inl y ↦ rw y (rw (same_id, same_org, unmarked, ==_refl k, ==_refl o) refl)
  | inr n ↦
      let away : (x.id == k) ≡ false = subst (λ i. (x.id == i) ≡ false) same_id n in
      rw n (rw away (put_visible o k f g fs same_id same_org unmarked (ground (arith, away, row))))
]

ok-pair {ℓ κ} :
    {A : Type ℓ} {B : Type κ} (a b : A) (x y : B)
    → ◌≡◌ {A = Result (A × B)} (ok (a, x)) (ok (b, y))
    → (b ≡ a) × (y ≡ x)
ok-pair a b x y h = (cc, cc)

pub finish_completion-ok :
    (env : Env) (actor : Option ℕ) (ref : String) (fresh o k : ℕ) (f g : File)
    (identity : Option String) (job : Option ℕ) (db : AppDb)
    → IsSeen o k db f
    → (finish_completion env actor ref fresh f identity db).0 ≡ ok (g, job)
    → (g ≡ uploaded_file f identity)
      × IsFinished f ref db (finish_completion env actor ref fresh f identity db).1 g job
unfolding finish_completion with_upload with_job uploaded_file check
finish_completion-ok env actor ref fresh o k f g identity job db seen h =
    go
      (schedule_job env f.organisation_id job_type_file_processing ref actor none fresh
        written.core)
      refl h
  where
    written : AppDb
    written = with_upload env actor (uploaded_file f identity) db

    go :
        (answer : Result (Job × Db))
        → schedule_job env f.organisation_id job_type_file_processing ref actor none fresh
            written.core
          ≡ answer
        → (check db answer (with_job f.object_key (uploaded_file f identity) written)).0
          ≡ ok (g, job)
        → (g ≡ uploaded_file f identity)
          × IsFinished f ref db
              (check db answer (with_job f.object_key (uploaded_file f identity) written)).1
              g
              job
    go (err e) scheduled h = cc
    go (ok (j, core)) scheduled h =
        let (row, newest) =
          schedule_job-newest env f.organisation_id job_type_file_processing ref actor none fresh
            written.core core j scheduled in
        let same : g ≡ uploaded_file f identity =
          (ok-pair (uploaded_file f identity) g (some j.id) job h).0 in
        let named : job ≡ some j.id = (ok-pair (uploaded_file f identity) g (some j.id) job h).1 in
        (
          same,
          record {
            row =
                subst (λ x. file_by_id f.id (put_file (uploaded_file f identity) db.files) ≡ some x)
                  (sym same)
                  (file_by_id-put f.id (uploaded_file f identity) db.files
                    ∙ rw (==_refl f.id, seen.row) refl);
            visible =
                subst
                  (λ x.
                    find_file f.organisation_id f.id (put_file (uploaded_file f identity) db.files)
                    ≡ some x)
                  (sym same)
                  (put_visible f.organisation_id f.id f (uploaded_file f identity) db.files refl
                    refl seen.present seen.row);
            scheduled =
                named
                ∙ sym (
                    ap
                      (λ js. job_id_of (
                        find_job_by_input_reference f.organisation_id job_type_file_processing ref
                          js))
                      newest
                    ∙ subst
                        (λ (x : Job).
                          job_id_of (
                            find_job_by_input_reference f.organisation_id job_type_file_processing
                              ref (x ∷ written.core.jobs))
                          ≡ some x.id)
                        (sym row)
                        (ap job_id_of (
                          find_newest env f.organisation_id (id_or none fresh) ref actor
                            written.core.jobs)));
            scheduled_one = record {
              added = j;
              one_job = newest;
              returned = named;
              is_waiting = unfold queued_job in (ap (λ (x : Job). x.status) row);
              of_tenant = unfold queued_job in (ap (λ (x : Job). x.organisation_id) row);
              of_kind = unfold queued_job in (ap (λ (x : Job). x.job_type) row);
              of_file = unfold queued_job in (ap (λ (x : Job). x.input_reference) row);
            };
          },
        )

-- A completion of a pending file that returned, by its two halves.
pub record IsCompleted (f : File) (checksum : Option String) (ref : String)
    (answers : CompletionAnswers) (db db' : AppDb) (g : File) (job : Option ℕ) : Type 0 where
  pub identity : Option String
  pub verified : IsVerified f checksum answers identity
  pub uploaded : g ≡ uploaded_file f identity
  pub finished : IsFinished f ref db db' g job
