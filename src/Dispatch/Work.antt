-- ===== src/Dispatch/Work.antt =====
-- What the work on a row is when it goes through: `converge_and_dispatch` of dispatch.rs.
use kafkaman.Base.{◌≡◌, refl, sym, ap, subst, if_elim, option_elim}
use kafkaman.Core.Status.{MarkOutcome}
use kafkaman.Failure.{ok}
use kafkaman.Received.{ReceivedRow, ReceivedTable}
use kafkaman.Received.Rows.{mark_received_processed}
use kafkaman.Cache.{CacheApplyOutcome, upsert_cache_from_received}
use kafkaman.Dispatch.Router.{HandlerFlow, HandlerCall, MessageRouter, meta_of}
use kafkaman.Dispatch.{
  Tables, DispatchRun, Progress, go, stop, in_bookkeeping, Work, continue_with, ◌>>=◌, call_handler,
  run_before, apply_cache, run_after, runs_after, mark_step, converge_and_dispatch, cache_run,
}
use kafkaman.Dispatch.Handled.{
  in_frame-go, go_injective, First, Second, run_before-First, run_after-Second,
}

module _ {Json App : Type 0} where
  -- A chain goes through only if its first part does.
  continue_with-go :
      {A B : Type 0} (f : A → Work Json App B) (p : Progress A × Tables Json App) (b : B)
      (s : Tables Json App)
      → continue_with f p ≡ (go b, s)
      → (a : A) × (s' : Tables Json App) × (p ≡ (go a, s')) × (f a s' ≡ (go b, s))
  continue_with-go f (go a, s') b s h = (a, s', refl, h)
  continue_with-go f (stop e, s') b s h = absurd (cc (ap (λ x. x.0) h))

  bind-go :
      {A B : Type 0} (m : Work Json App A) (f : A → Work Json App B) (tables : Tables Json App)
      (b : B) (s : Tables Json App)
      → (m >>= f) tables ≡ (go b, s)
      → (a : A) × (s' : Tables Json App) × (m tables ≡ (go a, s')) × (f a s' ≡ (go b, s))
  bind-go m f tables b s h = continue_with-go f (m tables) b s h

  -- Handlers reach the application's tables only.
  record IsHandling (before after : Tables Json App) : Type 0 where
    received : after.received ≡ before.received
    cache : after.cache ≡ before.cache

  call_handler-IsHandling :
      {A : Type 0} (f : App → HandlerCall A × App) (tables : Tables Json App)
      → IsHandling tables (call_handler f tables).1
  call_handler-IsHandling f tables = record { received = refl; cache = refl }

  run_before-IsHandling :
      (router : MessageRouter Json App) (row : ReceivedRow Json) (tables : Tables Json App)
      → IsHandling tables (run_before router row tables).1
  unfolding run_before
  run_before-IsHandling router row tables =
      option_elim (λ (p : Progress _ × Tables Json App). IsHandling tables p.1)
        (router.before_handlers row.message_type) (λ q. record { received = refl; cache = refl })
        (λ f q. call_handler-IsHandling (f (meta_of row) row.payload) tables)

  run_after-IsHandling :
      (router : MessageRouter Json App) (row : ReceivedRow Json) (flow : HandlerFlow)
      (o : CacheApplyOutcome) (tables : Tables Json App)
      → IsHandling tables (run_after router row flow o tables).1
  unfolding run_after
  run_after-IsHandling router row flow o tables =
      if_elim (λ (p : Progress _ × Tables Json App). IsHandling tables p.1) (runs_after flow o)
        (λ r.
          option_elim (λ (p : Progress _ × Tables Json App). IsHandling tables p.1)
            (router.handlers row.message_type) (λ q. record { received = refl; cache = refl })
            (λ f q. call_handler-IsHandling (f (meta_of row) row.payload) tables))
        (λ r. record { received = refl; cache = refl })

  apply_cache-go :
      (run : DispatchRun Json App) (t : ReceivedTable) (row : ReceivedRow Json)
      (o : CacheApplyOutcome) (tables s : Tables Json App)
      → apply_cache run t row tables ≡ (go o, s)
      → (upsert_cache_from_received (cache_run run) t row tables.cache ≡ (ok o, s.cache))
        × (s.received ≡ tables.received)
        × (s.app ≡ tables.app)
  unfolding apply_cache
  apply_cache-go run t row o tables s h =
      let r = upsert_cache_from_received (cache_run run) t row tables.cache in
      let answered : r.0 ≡ ok o = in_frame-go in_bookkeeping r.0 (ap (λ x. x.0) h) in
      let left : r.1 ≡ s.cache = ap (λ x. x.1.cache) h in
      ((λ k. (answered k, left k)), sym (ap (λ x. x.1.received) h), sym (ap (λ x. x.1.app) h))

  mark_step-go :
      (run : DispatchRun Json App) (row : ReceivedRow Json) (o : MarkOutcome)
      (tables s : Tables Json App)
      → mark_step run row tables ≡ (go o, s)
      → (mark_received_processed row.message_id run.due_at tables.received ≡ (s.received, o))
        × (s.cache ≡ tables.cache)
        × (s.app ≡ tables.app)
  unfolding mark_step
  mark_step-go run row o tables s =
      option_elim
        (λ (p : Progress MarkOutcome × Tables Json App).
          p ≡ (go o, s)
          → (mark_received_processed row.message_id run.due_at tables.received ≡ (s.received, o))
            × (s.cache ≡ tables.cache)
            × (s.app ≡ tables.app))
        run.mark_fault
        (λ q h.
          let marked : (mark_received_processed row.message_id run.due_at tables.received).1 ≡ o =
            go_injective (ap (λ x. x.0) h) in
          (
            (λ k. ((ap (λ x. x.1.received) h) k, marked k)),
            sym (ap (λ x. x.1.cache) h),
            sym (ap (λ x. x.1.app) h),
          ))
        (λ e q h. absurd (cc (ap (λ x. x.0) h)))

  -- What the work on a row is, once it went through.
  pub record IsWork (run : DispatchRun Json App) (t : ReceivedTable)
      (router : MessageRouter Json App) (row : ReceivedRow Json) (tables : Tables Json App)
      (o : MarkOutcome) (work : Tables Json App) : Type 0 where
    pub flow : HandlerFlow
    pub between : App
    pub outcome : CacheApplyOutcome
    pub first : First router row flow tables.app between
    pub converged :
        upsert_cache_from_received (cache_run run) t row tables.cache ≡ (ok outcome, work.cache)
    pub second : Second router row flow outcome between work.app
    pub marked :
        mark_received_processed row.message_id run.due_at tables.received ≡ (work.received, o)

  parts-IsWork :
      (run : DispatchRun Json App) (t : ReceivedTable) (router : MessageRouter Json App)
      (row : ReceivedRow Json) (tables : Tables Json App) (o : MarkOutcome) (work : Tables Json App)
      (flow : HandlerFlow) (outcome : CacheApplyOutcome) (s₁ s₂ s₃ : Tables Json App)
      → run_before router row tables ≡ (go flow, s₁)
      → apply_cache run t row s₁ ≡ (go outcome, s₂)
      → run_after router row flow outcome s₂ ≡ (go tt, s₃)
      → mark_step run row s₃ ≡ (go o, work)
      → IsWork run t router row tables o work
  parts-IsWork run t router row tables o work flow outcome s₁ s₂ s₃ e₁ e₂ e₃ e₄ =
      let c = apply_cache-go run t row outcome s₁ s₂ e₂ in
      let m = mark_step-go run row o s₃ work e₄ in
      let i₁ = subst (λ p. IsHandling tables p.1) e₁ (run_before-IsHandling router row tables) in
      let i₃ =
        subst (λ p. IsHandling s₂ p.1) e₃ (run_after-IsHandling router row flow outcome s₂) in
      record {
        flow = flow;
        between = s₁.app;
        outcome = outcome;
        first = run_before-First router row flow tables s₁ e₁;
        converged = rw (← i₁.cache, m.1, i₃.cache) c.0;
        second =
            subst (λ app. Second router row flow outcome app work.app) c.2
              (subst (Second router row flow outcome s₂.app) (sym m.2)
                (run_after-Second router row flow outcome s₂ s₃ e₃));
        marked = rw (← i₁.received, ← c.1, ← i₃.received) m.0;
      }

  -- Work that goes through ran the first handler, if there is one, with the application's tables as
  -- the cycle found them; the upsert of the row, on the cache as the cycle found it; the second
  -- handler, if there is one, on what the first left, unless the record was ignored or the first
  -- handler said to skip it; and the mark of the row. None of them failed.
  pub converge_and_dispatch-IsWork :
      (run : DispatchRun Json App) (t : ReceivedTable) (router : MessageRouter Json App)
      (row : ReceivedRow Json) (tables : Tables Json App) (o : MarkOutcome) (work : Tables Json App)
      → converge_and_dispatch run t router row tables ≡ (go o, work)
      → IsWork run t router row tables o work
  unfolding converge_and_dispatch
  converge_and_dispatch-IsWork run t router row tables o work h =
      let (flow, s₁, e₁, h₁) =
        bind-go (run_before router row)
          (λ flow.
            apply_cache run t row >>= λ a. run_after router row flow a >>= λ x. mark_step run row)
          tables o work h in
      let (outcome, s₂, e₂, h₂) =
        bind-go (apply_cache run t row)
          (λ a. run_after router row flow a >>= λ x. mark_step run row) s₁ o work h₁ in
      let (done, s₃, e₃, h₃) =
        bind-go (run_after router row flow outcome) (λ x. mark_step run row) s₂ o work h₂ in
      parts-IsWork run t router row tables o work flow outcome s₁ s₂ s₃ e₁ e₂ e₃ h₃
