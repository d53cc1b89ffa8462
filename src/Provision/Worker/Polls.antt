-- ===== src/Provision/Worker/Polls.antt =====
-- internal/provision/worker.go: what a poll puts into the queue.
use vcdeploy.Prelude.{
  ◌≤◌, String, ◌≡◌, refl, sym, ap, ◌∙◌, true, false, List, [], ◌∷◌, ◌++◌, inl, inr, Bool-cases,
  arith, All, Any, Table, insert, has_key, has_key-insert, has_key-delete_other, str_eq, eq_iff,
  ltb, length, length-append,
}
use mathlib.Core.List.{append_assoc, append-nil}
use vcdeploy.Provision.Worker.{ProvisionJob, Worker, poll_job, poll_jobs, poll_once, list_pending}

-- No identifier stands twice.
abbrev pub AllDiffer : List String → Type 0
AllDiffer [] = Unit {0}
AllDiffer (id ∷ ids) = All (λ j. str_eq id j ≡ false) ids × AllDiffer ids

-- What a poll over some jobs may do.
pub record Polled (jobs : List ProvisionJob) (w w' : Worker) : Type 0 where
  pub new : List String
  pub appended : w'.queue ≡ w.queue ++ new
  pub were_unmarked : All (λ id. has_key id w.poll_running ≡ false) new
  pub are_marked : All (λ id. has_key id w'.poll_running ≡ true) new
  pub differ : AllDiffer new
  pub listed : All (λ id. Any (λ job. job.id ≡ id) jobs) new
  pub keeps_marks :
      (id : String) → has_key id w.poll_running ≡ true → has_key id w'.poll_running ≡ true
  pub fits : length w.queue ≤ w.capacity → length w'.queue ≤ w'.capacity
  pub same_capacity : w'.capacity ≡ w.capacity

All-map :
    (P Q : String → Type 0) (xs : List String) → ((x : String) → P x → Q x) → All P xs → All Q xs
All-map P Q [] f h = tt
All-map P Q (x ∷ xs) f h = (f x h.0, All-map P Q xs f h.1)

-- A round that queues nothing, which leaves every mark as it was.
skipped :
    (job : ProvisionJob) (w w' : Worker)
    → w'.queue ≡ w.queue
    → w'.capacity ≡ w.capacity
    → ((id : String) → has_key id w'.poll_running ≡ has_key id w.poll_running)
    → Polled (job ∷ []) w w'
skipped job w w' q c m = record {
  new = [];
  appended = q ∙ sym (append-nil w.queue);
  were_unmarked = tt;
  are_marked = tt;
  differ = tt;
  listed = tt;
  keeps_marks = λ id h. m id ∙ h;
  fits = λ h. rw q (rw c h);
  same_capacity = c;
}

poll_job_lem : (job : ProvisionJob) (w : Worker) → Polled (job ∷ []) w (poll_job job w)
unfolding poll_job
poll_job_lem job w = elim (Bool-cases (has_key job.id w.poll_running)) [
  | inl e ↦ rw (e, poll_job) (skipped job w w refl refl (λ id. refl))
  | inr e ↦ elim (Bool-cases (ltb (length w.queue) w.capacity)) [
    | inl room ↦
        rw (e, room, poll_job)
          (record {
            new = job.id ∷ [];
            appended = refl;
            were_unmarked = (e, tt);
            are_marked = (marked job.id (ground (arith, eq_iff job.id job.id)), tt);
            differ = (tt, tt);
            listed = (inl refl, tt);
            keeps_marks = λ id h. ground (arith, has_key-insert job.id id tt w.poll_running);
            fits = λ h. ground (arith, length-append w.queue (job.id ∷ []));
            same_capacity = refl;
          })
    | inr full ↦
        rw (e, full, poll_job)
          (skipped job w _ refl refl (λ id. ground (
            arith,
            has_key-delete_other job.id id (insert job.id tt w.poll_running),
            has_key-insert job.id id tt w.poll_running,
            e,
            eq_iff job.id id,
          )))
  ]
]
  where
    marked :
        (id : String)
        → str_eq job.id id ≡ true
        → has_key id (insert job.id tt w.poll_running) ≡ true
    marked id h = ground (arith, has_key-insert job.id id tt w.poll_running)

All-append : (P : String → Type 0) (xs ys : List String) → All P xs → All P ys → All P (xs ++ ys)
All-append P [] ys h k = k
All-append P (x ∷ xs) ys h k = (h.0, All-append P xs ys h.1 k)

-- What is marked differs from what is not.
apart :
    (marks : Table (Unit {0})) (x : String) (ys : List String)
    → has_key x marks ≡ true
    → All (λ id. has_key id marks ≡ false) ys
    → All (λ y. str_eq x y ≡ false) ys
apart marks x [] h k = tt
apart marks x (y ∷ ys) h k = (
  elim (Bool-cases (str_eq x y)) [ inl e ↦ absurd (differ ((eq_iff x y).0 e)) | inr e ↦ e ],
  apart marks x ys h k.1,
)
  where
    differ : x ≡ y → ⊥
    differ p = ground (arith, ap (λ z. has_key z marks) p, k.0)

AllDiffer-append :
    (marks : Table (Unit {0})) (xs ys : List String)
    → AllDiffer xs
    → AllDiffer ys
    → All (λ id. has_key id marks ≡ true) xs
    → All (λ id. has_key id marks ≡ false) ys
    → AllDiffer (xs ++ ys)
AllDiffer-append marks [] ys d e h k = e
AllDiffer-append marks (x ∷ xs) ys d e h k =
    (All-append _ xs ys d.0 (apart marks x ys h.0 k), AllDiffer-append marks xs ys d.1 e h.1 k)

Polled-then :
    (job : ProvisionJob) (jobs : List ProvisionJob) (w v u : Worker)
    → Polled (job ∷ []) w v
    → Polled jobs v u
    → Polled (job ∷ jobs) w u
Polled-then job jobs w v u a b = record {
  new = a.new ++ b.new;
  appended = b.appended ∙ ap (λ q. q ++ b.new) a.appended ∙ append_assoc w.queue a.new b.new;
  were_unmarked =
      All-append _ a.new b.new a.were_unmarked
        (All-map (λ id. has_key id v.poll_running ≡ false) _ b.new unmarked_before b.were_unmarked);
  are_marked =
      All-append _ a.new b.new
        (All-map (λ id. has_key id v.poll_running ≡ true) _ a.new b.keeps_marks a.are_marked)
        b.are_marked;
  differ =
      AllDiffer-append v.poll_running a.new b.new a.differ b.differ a.are_marked b.were_unmarked;
  listed =
      All-append _ a.new b.new
        (All-map (λ id. Any (λ j. j.id ≡ id) (job ∷ [])) _ a.new first a.listed)
        (All-map (λ id. Any (λ j. j.id ≡ id) jobs) _ b.new (λ id h. inr h) b.listed);
  keeps_marks = λ id h. b.keeps_marks id (a.keeps_marks id h);
  fits = λ h. b.fits (a.fits h);
  same_capacity = b.same_capacity ∙ a.same_capacity;
}
  where
    unmarked_before :
        (id : String) → has_key id v.poll_running ≡ false → has_key id w.poll_running ≡ false
    unmarked_before id h = elim (Bool-cases (has_key id w.poll_running)) [
      | inl e ↦ absurd (ground (arith, a.keeps_marks id e))
      | inr e ↦ e
    ]

    first : (id : String) → Any (λ j. j.id ≡ id) (job ∷ []) → Any (λ j. j.id ≡ id) (job ∷ jobs)
    first id (inl h) = inl h
    first id (inr h) = absurd h

poll_jobs_lem : (jobs : List ProvisionJob) (w : Worker) → Polled jobs w (poll_jobs jobs w)
unfolding poll_jobs
poll_jobs_lem [] w = record {
  new = [];
  appended = sym (append-nil w.queue);
  were_unmarked = tt;
  are_marked = tt;
  differ = tt;
  listed = tt;
  keeps_marks = λ id h. h;
  fits = λ h. h;
  same_capacity = refl;
}
poll_jobs_lem (job ∷ jobs) w =
    Polled-then job jobs w (poll_job job w) _ (poll_job_lem job w)
      (poll_jobs_lem jobs (poll_job job w))

-- A poll appends to the queue identifiers of pending jobs, none twice, which were not marked as in
-- work before and are after; it keeps every mark, and the queue within its capacity.
pub poll_once_lem : (w : Worker) → Polled (list_pending w.jobs) w (poll_once w)
unfolding poll_once
poll_once_lem w = poll_jobs_lem (list_pending w.jobs) w
