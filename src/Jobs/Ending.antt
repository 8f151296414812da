-- ===== src/Jobs/Ending.antt =====
-- After how many ticks of the worker of internal/web/worker/worker.go a running job is at its end.
use sendry.Base.{
  ℕ, zero, suc, ◌+◌, ◌-◌, ◌*◌, ◌≤◌, ◌<◌, ◌≡◌, refl, sym, ◌∙◌, List, [], ◌∷◌, Text, inl, inr, arith,
  length,
}
use sendry.Jobs.{Store, is_running, is_scheduled}
use sendry.Jobs.Mails.{Outside}
use sendry.Jobs.Worker.{process_jobs}
use sendry.Jobs.Kept.{Sound}
use sendry.Jobs.Idle.{Idle, run_ticks, run_ticks-Idle}
use sendry.Jobs.Progress.{Working, Over}
use sendry.Jobs.Finishing.{AllKnown, process_jobs-Nearer}

Over-Idle : (j : Text) (st : Store) → Over j st → Idle j st
unfolding is_running is_scheduled
Over-Idle j st o row e =
    let same : o.row ≡ row = cc (o.found, e) in
    elim o.ended [ inl c ↦ rw (sym same, c) (refl, refl) | inr f ↦ rw (sym same, f) (refl, refl) ]

enough : (n b k : ℕ) → n + b ≤ suc k * b → 0 < n → (n - b) + b ≤ k * b
enough n b zero l p = absurd (omega arith)
enough n b (suc k) l p = omega arith

run_ticks-still_Over :
    (sv : Outside) (batch_size : ℕ) (times : List ℕ) (j : Text) (st : Store)
    → Sound st
    → Over j st
    → Over j (run_ticks sv batch_size times st)
run_ticks-still_Over sv batch_size times j st s o = record {
  row = o.row;
  found = (run_ticks-Idle sv batch_size times j st s (Over-Idle j st o)).0 ∙ o.found;
  ended = o.ended;
}

-- If a tick takes `batch_size` items of a job, which is not 0, a running job with items, of which `n`
-- at most wait, is completed or has failed after ⌈n / batch_size⌉ + 1 ticks or more, whatever the mail
-- servers, the templates and the other jobs are like. No two jobs and no two items have the same id,
-- and the campaigns of the jobs are there.
pub run_ticks-Over :
    (sv : Outside) (batch_size : ℕ) (times : List ℕ) (j : Text) (n : ℕ) (st : Store)
    → 0 < batch_size
    → n + batch_size ≤ length times * batch_size
    → Sound st
    → AllKnown st
    → Working j n st
    → Over j (run_ticks sv batch_size times st)
unfolding run_ticks
run_ticks-Over sv batch_size [] j n st b l s a w = absurd (omega arith)
run_ticks-Over sv batch_size (now ∷ later) j n st b l s a w =
    let st' = process_jobs sv batch_size now st in
    let (near, s', a') = process_jobs-Nearer sv batch_size now b j n st s a w in
    elim near [
      | inl o ↦ run_ticks-still_Over sv batch_size later j st' s' o
      | inr (p, w') ↦
          run_ticks-Over sv batch_size later j (n - batch_size) st' b
            (enough n batch_size (length later) l p) s' a' w'
    ]
