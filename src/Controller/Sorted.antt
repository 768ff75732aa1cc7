-- ===== src/Controller/Sorted.antt =====
-- `sortJobs` of internal/controller/convert.go.
use slurmlite.Controller.Convert.{job_before, insert_job, sort_jobs}
use slurmlite.Jobs.Model.{Job}
use slurmlite.Prelude.{
  dec_string, ite, true, false, if_ind, String, List, [], ◌∷◌, ◌≡◌, refl, ◌∙◌, ℕ, ◌+◌, ◌≤◌, arith,
  All, All-map,
}

-- No job stands after one that was submitted later.
abbrev pub ByTime : List Job → Type 0
ByTime [] = Unit
ByTime (j ∷ js) = All (λ (k : Job). j.submitted_at ≤ k.submitted_at) js × ByTime js

-- How often a job with the id stands in the list.
abbrev pub job_count : String → List Job → ℕ
job_count id [] = 0
job_count id (j ∷ js) = ite (dec_string j.id id) 1 0 + job_count id js

All-insert_job :
    (P : Job → Type 0) (j : Job) (js : List Job) → P j → All P js → All P (insert_job j js)
unfolding insert_job
All-insert_job P j [] p h = (p, tt)
All-insert_job P j (x ∷ xs) p h =
    if_ind (All P) (job_before x j) (λ _. (h.0, All-insert_job P j xs p h.1)) (λ _. (p, h))

before_le : (x j : Job) → job_before x j ≡ true → x.submitted_at ≤ j.submitted_at
unfolding job_before
before_le x j h = ground (arith, h)

not_before_le : (x j : Job) → job_before x j ≡ false → j.submitted_at ≤ x.submitted_at
unfolding job_before
not_before_le x j h = ground (arith, h)

insert_job-ByTime : (j : Job) (js : List Job) → ByTime js → ByTime (insert_job j js)
unfolding insert_job
insert_job-ByTime j [] v = (tt, tt)
insert_job-ByTime j (x ∷ xs) v =
    if_ind ByTime (job_before x j)
      (λ b. (
        All-insert_job (λ (k : Job). x.submitted_at ≤ k.submitted_at) j xs (before_le x j b) v.0,
        insert_job-ByTime j xs v.1,
      ))
      (λ b.
        let l = not_before_le x j b in
        (
          (
            l,
            All-map (λ (k : Job). x.submitted_at ≤ k.submitted_at)
                (λ (k : Job). j.submitted_at ≤ k.submitted_at) xs (λ k h. omega (arith, h, l)) v.0,
          ),
          v,
        ))

job_count-insert_job :
    (id : String) (j : Job) (js : List Job) → job_count id (insert_job j js) ≡ job_count id (j ∷ js)
unfolding insert_job
job_count-insert_job id j [] = refl
job_count-insert_job id j (x ∷ xs) =
    if_ind (λ (l : List Job). job_count id l ≡ job_count id (j ∷ x ∷ xs)) (job_before x j)
      (λ _. omega (arith, job_count-insert_job id j xs)) (λ _. refl)

sorted-ByTime : (js : List Job) → ByTime (sort_jobs js)
unfolding sort_jobs
sorted-ByTime [] = tt
sorted-ByTime (j ∷ js) = insert_job-ByTime j (sort_jobs js) (sorted-ByTime js)

job_count-sort_jobs : (id : String) (js : List Job) → job_count id (sort_jobs js) ≡ job_count id js
unfolding sort_jobs
job_count-sort_jobs id [] = refl
job_count-sort_jobs id (j ∷ js) =
    job_count-insert_job id j (sort_jobs js) ∙ omega (arith, job_count-sort_jobs id js)

-- `sortJobs` puts no job after one that was submitted later, and each id stands in its result as often
-- as in the list that it was given.
pub sort_jobs-ByTime :
    (js : List Job)
    → ByTime (sort_jobs js) × ((id : String) → job_count id (sort_jobs js) ≡ job_count id js)
sort_jobs-ByTime js = (sorted-ByTime js, λ id. job_count-sort_jobs id js)
