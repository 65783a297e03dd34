-- ===== src/Runtime/Chain.antt =====
-- The plugin chain: internal/runtime/plugin_chain.go. A method works on the view that it loads, so
-- the chain is the list of the view's plugins; what a method does is the list of the plugins' methods
-- that it calls, and its error. Priorities are not negative, and an error that errors.Join makes is
-- the list of the joined ones. Logging is not modelled.
pub mod Order
pub mod Rollback
mod Tests
use shark_socket.Base.{
  ℕ, zero, suc, ◌+◌, Bool, true, false, Option, none, some, List, [], ◌∷◌, ◌++◌, map, ltb, leb,
  if◌then◌else◌, Result, ok, err,
}
use shark_socket.Runtime.Sessions.{CallEnd, returns, fails, panics}

-- A `core.Plugin`, by what the chain sees of it.
pub record Plugin : Type 0 where
  pub name : ℕ
  pub priority : ℕ
  pub lifecycle : Bool  -- is a core.LifecyclePlugin

-- A call of a plugin's method.
pub data Call : Type 0 where
  starts stops accepts closes messages : Plugin → Call

-- slices.SortStableFunc by priority.
pub insert_stable : Plugin → List Plugin → List Plugin
insert_stable p [] = p ∷ []
insert_stable p (q ∷ sorted) =
    let rest = insert_stable p sorted in
    if leb p.priority q.priority then p ∷ q ∷ sorted else q ∷ rest

pub sort_stable : List Plugin → List Plugin
unfolding insert_stable
sort_stable [] = []
sort_stable (p ∷ plugins) = insert_stable p (sort_stable plugins)

pub not_nil : List (Option Plugin) → List Plugin
not_nil [] = []
not_nil (none ∷ plugins) = not_nil plugins
not_nil (some p ∷ plugins) = p ∷ not_nil plugins

-- The plugins of the new view; `none` is a nil plugin.
pub append : List (Option Plugin) → List Plugin → List Plugin
unfolding not_nil sort_stable
append plugins current = sort_stable (current ++ not_nil plugins)

module _ {E : Type 0} (plugin_panic : E) where
  -- The error of `safeStart` and `safeStop`.
  unfoldable pub safe_call : CallEnd E → Option E
  safe_call returns = none
  safe_call (fails e) = some e
  safe_call panics = some plugin_panic

  -- `errors.Join`, where `none` is nil.
  unfoldable pub join : List E → Option E → List E
  join errors none = errors
  join errors (some e) = errors ++ e ∷ []

  -- The calls of `Stop` on these plugins, in order, and the errors joined.
  unfoldable pub stop_each : (Plugin → CallEnd E) → List Plugin → List E → List Call × List E
  unfolding safe_call join
  stop_each stop [] errors = ([], errors)
  stop_each stop (p ∷ plugins) errors =
      let rest = stop_each stop plugins (join errors (safe_call (stop p))) in
      (stops p ∷ rest.0, rest.1)

  -- The loop of `StartAll`; `started` has the last one started first. No errors are a nil error.
  unfoldable pub start_loop :
      (Plugin → CallEnd E) → (Plugin → CallEnd E) → List Plugin → List Plugin → List Call × List E
  unfolding stop_each safe_call
  start_loop start stop started [] = ([], [])
  start_loop start stop started (p ∷ plugins) =
      let skipped = start_loop start stop started plugins in
      let rest = start_loop start stop (p ∷ started) plugins in
      let rollback = stop_each stop started [] in
      if p.lifecycle
      then elim (safe_call (start p)) [
        | none ↦ (starts p ∷ rest.0, rest.1)
        | some e ↦ (starts p ∷ rollback.0, e ∷ rollback.1)
      ]
      else skipped

  unfoldable pub start_all :
      (Plugin → CallEnd E) → (Plugin → CallEnd E) → List Plugin → List Call × List E
  unfolding start_loop
  start_all start stop plugins = start_loop start stop [] plugins

  -- The loop of `StopAll` from the last plugin on.
  unfoldable pub stop_loop : (Plugin → CallEnd E) → List Plugin → List Call × List E
  unfolding safe_call join
  stop_loop stop [] = ([], [])
  stop_loop stop (p ∷ plugins) =
      let later = stop_loop stop plugins in
      if p.lifecycle then (later.0 ++ stops p ∷ [], join later.1 (safe_call (stop p))) else later

  -- The loop of `OnAccept` with its two ways to fail; `accepted` has the last one first.
  pub accept_loop : (Plugin → CallEnd E) → List Plugin → List Plugin → List Call × Option E
  accept_loop accept accepted [] = ([], none)
  accept_loop accept accepted (p ∷ plugins) =
      let rest = accept_loop accept (p ∷ accepted) plugins in
      elim (accept p) [
        | returns ↦ (accepts p ∷ rest.0, rest.1)
        | fails e ↦ (accepts p ∷ map closes accepted, some e)
        | panics ↦ (accepts p ∷ map closes accepted, some plugin_panic)
      ]

  pub on_accept : (Plugin → CallEnd E) → List Plugin → List Call × Option E
  unfolding accept_loop
  on_accept accept plugins = accept_loop accept [] plugins

  -- What a plugin makes of a message: other data, an error, or a panic.
  pub data MessageEnd (D : Type 0) : Type 0 where
    passes : D → MessageEnd D
    refuses : E → MessageEnd D
    breaks : MessageEnd D

  pub on_message :
      {D : Type 0} → (Plugin → D → MessageEnd D) → List Plugin → D → List Call × Result E D
  on_message handle [] out = ([], ok out)
  on_message handle (p ∷ plugins) out = elim (handle p out) [
    | passes out' ↦ let rest = on_message handle plugins out' in (messages p ∷ rest.0, rest.1)
    | refuses e ↦ (messages p ∷ [], err e)
    | breaks ↦ (messages p ∷ [], err plugin_panic)
  ]

-- `OnClose`: the last plugin first, whether one panics or not.
pub on_close : List Plugin → List Call
on_close [] = []
on_close (p ∷ plugins) = on_close plugins ++ closes p ∷ []
