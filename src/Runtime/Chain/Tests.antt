-- ===== src/Runtime/Chain/Tests.antt =====
-- Runs of the plugin chain, and the theorems at a concrete chain.
use shark_socket.Base.{
  ℕ, ◌≡◌, refl, true, false, some, none, [], ◌∷◌, ◌++◌, map, if◌then◌else◌, ◌==◌,
}
use shark_socket.Runtime.Sessions.{CallEnd, returns, fails, panics}
use shark_socket.Runtime.Chain.{
  Plugin, starts, accepts, append, start_all, stop_loop, on_accept, on_close, MessageEnd, passes,
  breaks, safe_call,
}
use shark_socket.Runtime.Chain.Rollback.{on_accept-refused, start_all-fails, start_calls}

abbrev blacklist : Plugin
blacklist = record { name = 1; priority = 0; lifecycle = true }

abbrev rate_limit : Plugin
rate_limit = record { name = 2; priority = 10; lifecycle = true }

abbrev second_limit : Plugin
second_limit = record { name = 3; priority = 10; lifecycle = false }

in_order :
    append (some rate_limit ∷ none ∷ some blacklist ∷ []) (second_limit ∷ [])
    ≡ blacklist ∷ second_limit ∷ rate_limit ∷ []
unfolding append
in_order = refl

-- The error 0 is ErrPluginPanic; the second limit panics, and to stop fails.
abbrev ending : Plugin → CallEnd ℕ
ending p = if p.name == 3 then panics else returns

on_accept-refused_example :
    on_accept 0 ending (blacklist ∷ rate_limit ∷ second_limit ∷ blacklist ∷ []) ≡ (
      map accepts (blacklist ∷ rate_limit ∷ [])
          ++ accepts second_limit ∷ on_close (blacklist ∷ rate_limit ∷ []),
      some 0,
    )
unfolding safe_call
on_accept-refused_example =
    on_accept-refused 0 ending (blacklist ∷ rate_limit ∷ []) (blacklist ∷ []) second_limit 0
      (refl, (refl, tt)) refl

abbrev third : Plugin
third = record { name = 3; priority = 20; lifecycle = true }

start_all-fails_example :
    start_all 0 ending (λ p. fails p.name) (blacklist ∷ rate_limit ∷ third ∷ blacklist ∷ []) ≡ (
      start_calls 0 ending (λ p. fails p.name) (blacklist ∷ rate_limit ∷ [])
          ++ starts third ∷ (stop_loop 0 (λ p. fails p.name) (blacklist ∷ rate_limit ∷ [])).0,
      0 ∷ (stop_loop 0 (λ p. fails p.name) (blacklist ∷ rate_limit ∷ [])).1,
    )
unfolding safe_call
start_all-fails_example =
    start_all-fails 0 ending (λ p. fails p.name) (blacklist ∷ rate_limit ∷ []) (blacklist ∷ [])
      third 0 ((λ l. refl), ((λ l. refl), tt)) refl refl

abbrev handling : Plugin → ℕ → MessageEnd {E = ℕ} 0 ℕ
handling p n = if p.name == 3 then breaks else passes n
