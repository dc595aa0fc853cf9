-- ===== src/Dispatch/Handled.antt =====
-- What the handlers of a row did: `converge_and_dispatch` of dispatch.rs.
use kafkaman.Base.{
  true, false, none, some, ◌≢◌, ◌⊎◌, inl, inr, ◌≡◌, refl, ap, subst, arith, if_elim, option_elim,
}
use kafkaman.Failure.{Error, Result, ok, err}
use kafkaman.Received.{ReceivedRow}
use kafkaman.Cache.{CacheApplyOutcome, applied, ignored, migrated}
use kafkaman.Dispatch.Router.{
  HandlerFlow, continue, skip_handler, HandlerCall, run_handler, ReceivedMeta, MessageRouter,
  meta_of,
}
use kafkaman.Dispatch.{
  DispatchFailure, Tables, Progress, go, in_frame, in_handler, call_handler, run_before, run_after,
  runs_after,
}

pub in_frame-go :
    {A : Type 0} (frame : Error → DispatchFailure) (r : Result A) {a : A}
    → in_frame frame r ≡ go a
    → r ≡ ok a
in_frame-go frame (ok b) h = ground arith
in_frame-go frame (err e) h = absurd (cc h)

pub go_injective : {A : Type 0} {a b : A} → go a ≡ go b → a ≡ b
go_injective h = ground arith

runs :
    (flow : HandlerFlow) (o : CacheApplyOutcome)
    → runs_after flow o ≡ true
    → (flow ≡ continue) × (o ≢ ignored)
runs continue applied h = (refl, λ q. absurd (cc q))
runs continue migrated h = (refl, λ q. absurd (cc q))
runs continue ignored h = absurd (cc h)
runs skip_handler o h = absurd (cc h)

leaves_out :
    (flow : HandlerFlow) (o : CacheApplyOutcome)
    → runs_after flow o ≡ false
    → (flow ≡ skip_handler) ⊎ (o ≡ ignored)
leaves_out continue applied h = absurd (cc h)
leaves_out continue migrated h = absurd (cc h)
leaves_out continue ignored h = inr refl
leaves_out skip_handler o h = inl refl

module _ {Json App : Type 0} where
  -- What the first handler did: there is none, or it answered with the flow.
  pub data First (router : MessageRouter Json App) (row : ReceivedRow Json)
      : HandlerFlow → App → App → Type 0 where
    absent :
        (app : App)
        → router.before_handlers row.message_type ≡ none
        → First router row continue app app
    called :
        (f : ReceivedMeta Json → Json → App → HandlerCall HandlerFlow × App) (app : App)
        (flow : HandlerFlow)
        → router.before_handlers row.message_type ≡ some f
        → run_handler (f (meta_of row) row.payload app).0 ≡ ok flow
        → First router row flow app (f (meta_of row) row.payload app).1

  -- What the second handler did: it was not called, for the flow or because the cache ignored the
  -- record; or there is none; or it was called and succeeded.
  pub data Second (router : MessageRouter Json App) (row : ReceivedRow Json) (flow : HandlerFlow)
      (o : CacheApplyOutcome) : App → App → Type 0 where
    left_out :
        (app : App) → (flow ≡ skip_handler) ⊎ (o ≡ ignored) → Second router row flow o app app
    absent :
        (app : App)
        → flow ≡ continue
        → o ≢ ignored
        → router.handlers row.message_type ≡ none
        → Second router row flow o app app
    called :
        (f : ReceivedMeta Json → Json → App → HandlerCall (Unit {0}) × App) (app : App)
        → flow ≡ continue
        → o ≢ ignored
        → router.handlers row.message_type ≡ some f
        → run_handler (f (meta_of row) row.payload app).0 ≡ ok tt
        → Second router row flow o app (f (meta_of row) row.payload app).1

  handled :
      {A : Type 0} (f : App → HandlerCall A × App) (tables s : Tables Json App) (a : A)
      → call_handler f tables ≡ (go a, s)
      → (run_handler (f tables.app).0 ≡ ok a) × ((f tables.app).1 ≡ s.app)
  handled f tables s a h =
      (in_frame-go in_handler (run_handler (f tables.app).0) (ap (λ x. x.0) h), ap (λ x. x.1.app) h)

  pub run_before-First :
      (router : MessageRouter Json App) (row : ReceivedRow Json) (flow : HandlerFlow)
      (tables s : Tables Json App)
      → run_before router row tables ≡ (go flow, s)
      → First router row flow tables.app s.app
  unfolding run_before
  run_before-First router row flow tables s =
      option_elim
        (λ (p : Progress HandlerFlow × Tables Json App).
          p ≡ (go flow, s) → First router row flow tables.app s.app)
        (router.before_handlers row.message_type)
        (λ q h.
          let same : continue ≡ flow = go_injective (ap (λ x. x.0) h) in
          subst (λ f. First router row f tables.app s.app) same
            (subst (First router row continue tables.app) (ap (λ x. x.1.app) h)
              (First.absent tables.app q)))
        (λ f q h.
          let (answer, left) = handled (f (meta_of row) row.payload) tables s flow h in
          subst (First router row flow tables.app) left (First.called f tables.app flow q answer))

  pub run_after-Second :
      (router : MessageRouter Json App) (row : ReceivedRow Json) (flow : HandlerFlow)
      (o : CacheApplyOutcome) (tables s : Tables Json App)
      → run_after router row flow o tables ≡ (go tt, s)
      → Second router row flow o tables.app s.app
  unfolding run_after
  run_after-Second router row flow o tables s =
      if_elim
        (λ (p : Progress (Unit {0}) × Tables Json App).
          p ≡ (go tt, s) → Second router row flow o tables.app s.app)
        (runs_after flow o)
        (λ r.
          option_elim
            (λ (p : Progress (Unit {0}) × Tables Json App).
              p ≡ (go tt, s) → Second router row flow o tables.app s.app)
            (router.handlers row.message_type)
            (λ q h.
              subst (Second router row flow o tables.app) (ap (λ x. x.1.app) h)
                (Second.absent tables.app (runs flow o r).0 (runs flow o r).1 q))
            (λ f q h.
              let (answer, left) = handled (f (meta_of row) row.payload) tables s tt h in
              subst (Second router row flow o tables.app) left
                (Second.called f tables.app (runs flow o r).0 (runs flow o r).1 q answer)))
        (λ r h.
          subst (Second router row flow o tables.app) (ap (λ x. x.1.app) h)
            (left_out tables.app (leaves_out flow o r)))
