-- ===== src/Emitter/Dispatcher.antt =====
-- emitter.go: `dispatcher`, which runs callbacks one at a time in the order they were queued.
use realtime_go.Common.{
  inl, inr, Bool-cases, arith, ℕ, suc, ◌≡◌, refl, sym, ◌∙◌, ap, Bool, true, false, List, [], ◌∷◌,
  ◌++◌, append_assoc, append-nil, if◌then◌else◌,
}

pub record Dispatcher (F : Type 0) : Type 0 where
  pub queue : List F
  pub running : Bool

module _ {F : Type 0} where
  -- The flag says whether a drain goroutine is started.
  unfoldable pub enqueue_callback : F → Dispatcher F → Bool × Dispatcher F
  enqueue_callback fn d =
      if d.running
      then (false, record d { queue = d.queue ++ fn ∷ [] })
      else (true, record { queue = d.queue ++ fn ∷ []; running = true })

  -- One round of `run`: the callback to call, if any, else the goroutine ends.
  unfoldable pub run_round_of : List F → Dispatcher F → List F × Dispatcher F
  run_round_of [] d = ([], record d { running = false })
  run_round_of (fn ∷ rest) d = (fn ∷ [], record d { queue = rest })

  unfoldable pub run_round : Dispatcher F → List F × Dispatcher F
  run_round d = run_round_of d.queue d

  -- The goroutines that drain the queue, with every interleaving of `enqueue` (by a caller or by the
  -- callback that runs) and their rounds. `Runs d n fs called d2 m`: from `d` with `n` goroutines,
  -- the callbacks `fs` are queued and `called` are called, in these orders, to `d2` with `m`.
  pub data Runs : Dispatcher F → ℕ → List F → List F → Dispatcher F → ℕ → Type 0 where
    no_run : (d : Dispatcher F) (n : ℕ) → Runs d n [] [] d n
    enqueue_run :
        {d d2 : Dispatcher F} {n m : ℕ} {fs called : List F} (fn : F)
        → Runs
            (enqueue_callback fn d).1
            (if (enqueue_callback fn d).0 then suc n else n)
            fs
            called
            d2
            m
        → Runs d n (fn ∷ fs) called d2 m
    call_run :
        {d d2 : Dispatcher F} {n m : ℕ} {fs called : List F} (fn : F) (rest : List F)
        → d.queue ≡ fn ∷ rest
        → Runs (run_round d).1 (suc n) fs called d2 m
        → Runs d (suc n) fs (fn ∷ called) d2 m
    end_run :
        {d d2 : Dispatcher F} {n m : ℕ} {fs called : List F}
        → d.queue ≡ []
        → Runs (run_round d).1 n fs called d2 m
        → Runs d (suc n) fs called d2 m

  -- One goroutine while the dispatcher is running, none and an empty queue else.
  abbrev pub IsIdleOrBusy : Dispatcher F → ℕ → Type 0
  IsIdleOrBusy d n = if d.running then n ≡ 1 else ((n ≡ 0) × (d.queue ≡ []))

  enqueue_callback-queue :
      (fn : F) (d : Dispatcher F) → (enqueue_callback fn d).1.queue ≡ d.queue ++ fn ∷ []
  unfolding enqueue_callback
  enqueue_callback-queue fn d = elim (Bool-cases d.running) [
    | inl e ↦ rw e refl
    | inr e ↦ rw e refl
  ]

  enqueue_callback-IsIdleOrBusy :
      (fn : F) (d : Dispatcher F) (n : ℕ)
      → IsIdleOrBusy d n
      → IsIdleOrBusy (enqueue_callback fn d).1 (if (enqueue_callback fn d).0 then suc n else n)
  unfolding enqueue_callback
  enqueue_callback-IsIdleOrBusy fn d n h = elim (Bool-cases d.running) [
    | inl e ↦ rw e (rw e at h)
    | inr e ↦ let idle : (n ≡ 0) × (d.queue ≡ []) = rw e at h in rw e (ap suc idle.0)
  ]

  run_round_of-called :
      (fn : F) (rest q : List F) (d : Dispatcher F) (n : ℕ)
      → q ≡ fn ∷ rest
      → IsIdleOrBusy d (suc n)
      → ((run_round_of q d).1.queue ≡ rest) × IsIdleOrBusy (run_round_of q d).1 (suc n)
  unfolding run_round_of
  run_round_of-called fn rest [] d n e h = cc
  run_round_of-called fn rest (g ∷ q) d n e h = elim (Bool-cases d.running) [
    | inl b ↦ (cc, rw b (rw b at h))
    | inr b ↦ let idle : (suc n ≡ 0) × (d.queue ≡ []) = rw b at h in absurd (omega (arith, idle.0))
  ]

  run_round_of-ended :
      (q : List F) (d : Dispatcher F) (n : ℕ)
      → q ≡ []
      → d.queue ≡ q
      → IsIdleOrBusy d (suc n)
      → ((run_round_of q d).1.queue ≡ d.queue) × IsIdleOrBusy (run_round_of q d).1 n
  unfolding run_round_of
  run_round_of-ended [] d n e f h = elim (Bool-cases d.running) [
    | inl b ↦ let busy : suc n ≡ 1 = rw b at h in (refl, (omega (arith, busy), f))
    | inr b ↦ let idle : (suc n ≡ 0) × (d.queue ≡ []) = rw b at h in absurd (omega (arith, idle.0))
  ]
  run_round_of-ended (g ∷ q) d n e f h = cc

  -- However callers that queue callbacks and the goroutines that drain the queue interleave: from a
  -- dispatcher with one goroutine while it is running and none, with an empty queue, else, the
  -- callbacks called and then those still queued are the ones that were queued before and then during
  -- the run, in that order, and there is again one goroutine if it is running and none, with an empty
  -- queue, else.
  pub Runs-order :
      {fs called : List F} (d : Dispatcher F) (n : ℕ) (d2 : Dispatcher F) (m : ℕ)
      → IsIdleOrBusy d n
      → Runs d n fs called d2 m
      → (called ++ d2.queue ≡ d.queue ++ fs) × IsIdleOrBusy d2 m
  unfolding run_round
  Runs-order d n _ _ h (no_run _ _) = (sym (append-nil d.queue), h)
  Runs-order d n d2 m h (enqueue_run {fs = fs} fn r) =
      let (order, last) = Runs-order _ _ d2 m (enqueue_callback-IsIdleOrBusy fn d n h) r in
      (
        order ∙ ap (λ q. q ++ fs) (enqueue_callback-queue fn d) ∙ append_assoc d.queue (fn ∷ []) fs,
        last,
      )
  Runs-order d (suc n) d2 m h (call_run {fs = fs} fn rest e r) =
      let (left, kept) = run_round_of-called fn rest d.queue d n e h in
      let (order, last) = Runs-order (run_round d).1 (suc n) d2 m kept r in
      (ap (◌∷◌ fn) (order ∙ ap (λ q. q ++ fs) left) ∙ ap (λ q. q ++ fs) (sym e), last)
  Runs-order d (suc n) d2 m h (end_run {fs = fs} e r) =
      let (left, kept) = run_round_of-ended d.queue d n e refl h in
      let (order, last) = Runs-order (run_round d).1 n d2 m kept r in
      (order ∙ ap (λ q. q ++ fs) left, last)
