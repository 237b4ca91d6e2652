-- ===== src/Milter/Chain.antt =====
-- What a chain of filters lets through.
use mailout_operator.Base.{
  true, List, [], ◌∷◌, Option, none, some, ◌≡◌, ◌↔◌, inl, inr, refl, subst, arith, Bool-cases,
}
use mailout_operator.Envelope.{Envelope}
use mailout_operator.Milter.{Failure, refused, discarded, malfunction, Filter, passed, run}

-- Each filter in turn sees what the one before left, and accepts it; or it is out of order, is
-- declared to fail open, and the message goes on as it left it.
pub data Passes : List Filter → Envelope → Envelope → Type 0 where
  no_more : {m : Envelope} → Passes [] m m
  accepted :
      {f : Filter} {fs : List Filter} {m n l : Envelope}
      → f.apply m ≡ (n, none)
      → Passes fs n l
      → Passes (f ∷ fs) m l
  failed_open :
      {f : Filter} {fs : List Filter} {m n l : Envelope}
      → f.apply m ≡ (n, some malfunction)
      → f.fail_open ≡ true
      → Passes fs n l
      → Passes (f ∷ fs) m l

run-Passes : (fs : List Filter) (m l : Envelope) → run fs m ≡ passed l → Passes fs m l
unfolding run
run-Passes [] m l e = subst (Passes [] m) (ground arith) no_more
run-Passes (f ∷ fs) m l e = go (f.apply m) refl (λ n. run-Passes fs n l)
  where
    go :
        (r : Envelope × Option Failure)
        → f.apply m ≡ r
        → ((n : Envelope) → run fs n ≡ passed l → Passes fs n l)
        → Passes (f ∷ fs) m l
    go (n, none) q rec = accepted q (rec n (ground arith))
    go (n, some (refused x)) q rec = absurd (ground arith)
    go (n, some discarded) q rec = absurd (ground arith)
    go (n, some malfunction) q rec = elim (Bool-cases f.fail_open) [
      | inl o ↦ failed_open q o (rec n (ground arith))
      | inr c ↦ absurd (ground arith)
    ]

Passes-run : {fs : List Filter} {m l : Envelope} → Passes fs m l → run fs m ≡ passed l
unfolding run
Passes-run no_more = refl
Passes-run (accepted q p) = ground (arith, Passes-run p)
Passes-run (failed_open q o p) = ground (arith, Passes-run p)

-- A message comes out of the chain exactly if every filter accepted it, or was out of order and
-- declared to fail open.
pub run-passed_iff : (fs : List Filter) (m l : Envelope) → (run fs m ≡ passed l) ↔ Passes fs m l
run-passed_iff fs m l = (run-Passes fs m l, Passes-run)
