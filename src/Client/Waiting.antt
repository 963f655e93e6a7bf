-- ===== src/Client/Waiting.antt =====
-- A request that waits while other tasks use the same router.
use hmmp_python_sdk.Base.{
  nat_eq, ℕ, ◌<◌, ◌≡◌, ◌≢◌, ◌∙◌, sym, refl, ap, [], ◌∷◌, List, true, false, Bool-cases, Option,
  none, some, Result, ok, err, inl, inr, timeout_error, All, arith, ◌==◌, ==_iff, beq_refl,
}
use mathlib.Core.Path.{subst}
use hmmp_python_sdk.Base.Dict
use hmmp_python_sdk.Base.Dict.{Dict, get-put, get-pop}
use hmmp_python_sdk.Frame.Decoder.{Frame, stream_id}
use hmmp_python_sdk.Connection.Router.{
  Router, Event, Outcome, result, cancelled, register, cancel, route, register_request,
  cancel_request, route_frame, settle,
}
use hmmp_python_sdk.Client.Session.{outcome_of, or_wait, wait}

-- The other tasks register and cancel other streams; the connection may route any frame.
abbrev pub OfOthers : ℕ → Event → Type 0
OfOthers id (register k) = k ≢ id
OfOthers id (cancel k) = k ≢ id
OfOthers id (route f) = Unit

-- The future is waited for under `id` only, and was given out.
pub record Waits (id future : ℕ) (r : Router) : Type 0 where
  pub there : Dict.get r.pending_requests id ≡ some future
  pub only : (k : ℕ) → Dict.get r.pending_requests k ≡ some future → k ≡ id
  pub given : future < r.next_future

register-Waits :
    (id future k : ℕ) (r : Router)
    → k ≢ id
    → Waits id future r
    → Waits id future (register_request k r).0
unfolding register_request
register-Waits id future k r h v = record {
  there = get-put r.pending_requests k id r.next_future ∙ ground (arith, ==_iff k id, h, v.there);
  only = λ j e.
      ground
        (arith, get-put r.pending_requests k j r.next_future, ==_iff k j, v.only j, e, v.given);
  given = omega (arith, v.given);
}

pop-Waits :
    (id future k : ℕ) (r : Router)
    → k ≢ id
    → Waits id future r
    → Waits id future (record r { pending_requests = Dict.pop r.pending_requests k })
pop-Waits id future k r h v = record {
  there = get-pop r.pending_requests k id ∙ ground (arith, ==_iff k id, h, v.there);
  only = λ j e. ground (arith, get-pop r.pending_requests k j, ==_iff k j, v.only j, e);
  given = v.given;
}

settle-Waits :
    (id future k : ℕ) (outcome : Outcome) (r : Router) (o : Option ℕ)
    → k ≢ id
    → Waits id future r
    → Dict.get r.pending_requests k ≡ o
    → Waits id future (settle k outcome r o).0 × (outcome_of future (settle k outcome r o).1 ≡ none)
settle-Waits id future k outcome r none h v e = (v, refl)
settle-Waits id future k outcome r (some n) h v e = (pop-Waits id future k r h v, other_future n e)
  where
    other_future :
        (n : ℕ)
        → Dict.get r.pending_requests k ≡ some n
        → outcome_of future ((n, outcome) ∷ []) ≡ none
    other_future n e = elim (Bool-cases (n == future)) [
      | inl same ↦ absurd (h (v.only k (e ∙ ap some ((==_iff n future).0 same))))
      | inr other ↦ rw other refl
    ]

-- What a request got: a frame of its own stream, or the timeout.
abbrev pub IsAnswer : ℕ → Result Frame → Type 0
IsAnswer id (ok f) = stream_id f ≡ id
IsAnswer id (err e) = e ≡ timeout_error

abbrev pub Settled : ℕ → Router × Result Frame → Type 0
Settled id p = (Dict.get p.0.pending_requests id ≡ none) × IsAnswer id p.1

or_wait-none :
    (id : ℕ) (r : Router) (o : Option Outcome) (later : Router × Result Frame)
    → o ≡ none
    → Settled id later
    → Settled id (or_wait r o later)
or_wait-none id r none later e h = h
or_wait-none id r (some outcome) later e h = absurd (cc)

popped : (id : ℕ) (r : Router) → Dict.get (Dict.pop r.pending_requests id) id ≡ none
popped id r = get-pop r.pending_requests id id ∙ rw (beq_refl id) refl

settle_own :
    (id future : ℕ) (f : Frame) (later : Router × Result Frame) (r : Router) (o : Option ℕ)
    → o ≡ some future
    → stream_id f ≡ id
    → let p = settle id (result f) r o in Settled id (or_wait p.0 (outcome_of future p.1) later)
settle_own id future f later r none e s = absurd (cc)
settle_own id future f later r (some n) e s =
    let n_eq : n ≡ future = cc e in rw ((==_iff n future).1 n_eq) (popped id r, s)

route_other :
    (id future : ℕ) (f : Frame) (r : Router)
    → stream_id f ≢ id
    → Waits id future r
    → Waits id future (route_frame f r).0 × (outcome_of future (route_frame f r).1 ≡ none)
unfolding route_frame
route_other id future f r h v = elim (Bool-cases (stream_id f == 0)) [
  | inl notice ↦ rw notice (v, refl)
  | inr answer ↦ rw answer (
      settle-Waits id future (stream_id f) (result f) r (Dict.get r.pending_requests (stream_id f))
        h v refl)
]

route_own :
    (future : ℕ) (f : Frame) (later : Router × Result Frame) (r : Router)
    → stream_id f ≢ 0
    → Waits (stream_id f) future r
    → let p = route_frame f r in Settled (stream_id f) (or_wait p.0 (outcome_of future p.1) later)
unfolding route_frame
route_own future f later r real v =
    let numbered : (stream_id f == 0) ≡ false = ground (arith, ==_iff (stream_id f) 0) in
    rw numbered (
      settle_own (stream_id f) future f later r (Dict.get r.pending_requests (stream_id f)) v.there
        refl)

module _ (id future : ℕ) (real : id ≢ 0) where
  route_settles :
      (f : Frame) (r : Router) (later : Router × Result Frame)
      → Waits id future r
      → (Waits id future (route_frame f r).0 → Settled id later)
      → let p = route_frame f r in Settled id (or_wait p.0 (outcome_of future p.1) later)
  route_settles f r later v h = elim (Bool-cases (stream_id f == id)) [
    | inl own ↦
        let e : stream_id f ≡ id = (==_iff (stream_id f) id).0 own in
        subst
          (λ (j : ℕ).
            Settled j (or_wait (route_frame f r).0 (outcome_of future (route_frame f r).1) later))
          e
          (route_own future f later r (λ z. real (sym e ∙ z))
            (subst (λ (j : ℕ). Waits j future r) (sym e) v))
    | inr other ↦
        let (v', quiet) =
          route_other id future f r (λ e. cc (other, (==_iff (stream_id f) id).1 e)) v in
        or_wait-none id (route_frame f r).0 (outcome_of future (route_frame f r).1) later quiet
          (h v')
  ]

  pub wait_settles :
      (es : List Event) (r : Router)
      → All (OfOthers id) es
      → Waits id future r
      → Settled id (wait true id future es r)
  unfolding wait cancel_request
  wait_settles [] r h v = rw v.there (popped id r, refl)
  wait_settles (register k ∷ es) r h v =
      wait_settles es (register_request k r).0 h.1 (register-Waits id future k r h.0 v)
  wait_settles (cancel k ∷ es) r h v =
      let (v', quiet) =
        settle-Waits id future k cancelled r (Dict.get r.pending_requests k) h.0 v refl in
      or_wait-none id (cancel_request k r).0 (outcome_of future (cancel_request k r).1)
        (wait true id future es (cancel_request k r).0) quiet
        (wait_settles es (cancel_request k r).0 h.1 v')
  wait_settles (route f ∷ es) r h v =
      route_settles f r (wait true id future es (route_frame f r).0) v
        (λ v'. wait_settles es (route_frame f r).0 h.1 v')
