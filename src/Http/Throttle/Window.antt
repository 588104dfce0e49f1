-- ===== src/Http/Throttle/Window.antt =====
-- The rate limit window that `observe_response` keeps, against an independent description: the
-- latest reset of all windows seen, with the least number of requests left in it. Responses may
-- arrive in any order.
use mathlib.Core.List.{Perm, Permᴰ, foldl}
use mathlib.Core.Logic.{∥∥₁_elim}
use openhound_okta.Base.{
  ℕ, ◌≡◌, refl, ◌∙◌, ap, ap₂, Option, none, some, List, [], ◌∷◌, arith, ltb, ◌==◌, nat_eq,
  if◌then◌else◌, Option-cases, inl, inr, Bool, true, false, sym,
}
use openhound_okta.Base.Int.{ℤ, min_ℤ, min_ℤ_comm, min_ℤ_assoc}
use openhound_okta.Http.Throttle.Calls.{Call, begin, finish, book, hold, see, call, calls}
use openhound_okta.Http.Throttle.{
  Throttle, begin_http_request, end_http_request, try_book, defer, join_window, pace, pace_window,
  absent, malformed, window, observe,
}

-- A reset and the requests left before it.
pub record View : Type 0 where
  pub reset_at : ℕ
  pub remaining : ℤ

-- The later window, and of one window the lesser count.
unfoldable pub newest : View → Option View → Option View
newest v none = some v
newest v (some w) =
    if ltb w.reset_at v.reset_at
    then some v
    else if v.reset_at == w.reset_at
    then some (record w { remaining = min_ℤ v.remaining w.remaining })
    else some w

pub newest_comm : (v w : View) (o : Option View) → newest v (newest w o) ≡ newest w (newest v o)
unfolding newest
newest_comm v w none = ground (arith, min_ℤ_comm v.remaining w.remaining)
newest_comm v w (some u) = ground (
  arith,
  min_ℤ_comm v.remaining w.remaining,
  min_ℤ_assoc v.remaining w.remaining u.remaining,
  min_ℤ_assoc w.remaining v.remaining u.remaining,
)

-- The window of the throttle; both fields are set together.
abbrev pub view : Throttle → Option View
view t = elim t.observed_reset_at [
  | none ↦ none
  | some reset_at ↦ elim t.observed_remaining [
    | none ↦ none
    | some remaining ↦ some (record { reset_at = reset_at; remaining = remaining })
  ]
]

abbrev paired : Throttle → Bool
paired t = elim t.observed_reset_at [
  | none ↦ elim t.observed_remaining [ none ↦ true | some _ ↦ false ]
  | some _ ↦ elim t.observed_remaining [ none ↦ false | some _ ↦ true ]
]

-- The two fields are set or unset together.
abbrev pub IsPaired : Throttle → Type 0
IsPaired t = paired t ≡ true

-- Both fields stay as they are.
record SameWindow (t u : Throttle) : Type 0 where
  reset_eq : u.observed_reset_at ≡ t.observed_reset_at
  remaining_eq : u.observed_remaining ≡ t.observed_remaining

SameWindow-view : {t u : Throttle} → SameWindow t u → view u ≡ view t
SameWindow-view {t} {u} h = ground arith

SameWindow-IsPaired : {t u : Throttle} → SameWindow t u → IsPaired t → IsPaired u
SameWindow-IsPaired {t} {u} h p = ground arith

pace-SameWindow :
    (wall now : ℕ) (remaining : ℤ) (reset_at : ℕ) (t : Throttle)
    → SameWindow t (pace wall now remaining reset_at t)
unfolding pace
pace-SameWindow wall now remaining reset_at t = ground arith

pace_window-SameWindow : (wall now : ℕ) (t : Throttle) → SameWindow t (pace_window wall now t)
unfolding pace_window
pace_window-SameWindow wall now t = elim (Option-cases t.observed_remaining) [
  | inl e ↦ ground arith
  | inr (remaining, e) ↦ elim (Option-cases t.observed_reset_at) [
    | inl f ↦ ground arith
    | inr (reset_at, f) ↦ ground (arith, pace-SameWindow wall now remaining reset_at t)
  ]
]

join_window-view :
    (remaining : ℤ) (reset_at : ℕ) (t u : Throttle)
    → IsPaired t
    → join_window remaining reset_at t ≡ some u
    → (view u ≡ newest (record { reset_at = reset_at; remaining = remaining }) (view t))
      × IsPaired u
unfolding join_window newest
join_window-view remaining reset_at t u p h = ground arith

join_window_stale :
    (remaining : ℤ) (reset_at : ℕ) (t : Throttle)
    → IsPaired t
    → join_window remaining reset_at t ≡ none
    → view t ≡ newest (record { reset_at = reset_at; remaining = remaining }) (view t)
unfolding join_window newest
join_window_stale remaining reset_at t p h = ground arith

-- What a call means for the window.
unfoldable pub effect : Call → Option View → Option View
effect (see _ _ (window remaining reset_at)) o =
    newest (record { reset_at = reset_at; remaining = remaining }) o
effect _ o = o

abbrev Refines : Call → Throttle → Type 0
Refines c t = (view (call c t) ≡ effect c (view t)) × IsPaired (call c t)

same_window :
    (c : Call) (t : Throttle)
    → SameWindow t (call c t)
    → ((o : Option View) → effect c o ≡ o)
    → IsPaired t
    → Refines c t
same_window c t h e p = (SameWindow-view h ∙ sym (e (view t)), SameWindow-IsPaired h p)

call-Refines : (c : Call) (t : Throttle) → IsPaired t → Refines c t
unfolding call effect begin_http_request end_http_request try_book defer observe
call-Refines begin t p = same_window begin t (ground arith) (λ o. refl) p
call-Refines finish t p = same_window finish t (ground arith) (λ o. refl) p
call-Refines (book now org_allows) t p =
    same_window (book now org_allows) t (ground arith) (λ o. refl) p
call-Refines (hold now delay minimum_interval) t p =
    same_window (hold now delay minimum_interval) t (ground arith) (λ o. refl) p
call-Refines (see wall now absent) t p =
    same_window (see wall now absent) t (ground arith) (λ o. refl) p
call-Refines (see wall now malformed) t p =
    same_window (see wall now malformed) t (ground arith) (λ o. refl) p
call-Refines (see wall now (window remaining reset_at)) t p =
    elim (Option-cases (join_window remaining reset_at t)) [
      | inl e ↦ rw (e, observe) (join_window_stale remaining reset_at t p e, p)
      | inr (u, e) ↦
          let (v, q) = join_window-view remaining reset_at t u p e in
          let same = pace_window-SameWindow wall now u in
          rw (e, observe) (SameWindow-view same ∙ v, SameWindow-IsPaired same q)
    ]

-- From a throttle that knows both or neither of a window's reset and its requests left, the window kept
-- after any calls is the newest of those that the responses described, each counted
-- with the least number of requests left, and the window before the calls.
pub calls-view :
    (cs : List Call) (t : Throttle)
    → IsPaired t
    → view (calls cs t) ≡ foldl (λ o c. effect c o) (view t) cs
unfolding calls
calls-view [] t p = refl
calls-view (c ∷ cs) t p =
    let (v, q) = call-Refines c t p in
    calls-view cs (call c t) q ∙ ap (λ o. foldl (λ o c. effect c o) o cs) v

effect_comm : (c d : Call) (o : Option View) → effect c (effect d o) ≡ effect d (effect c o)
unfolding effect
effect_comm (see _ _ (window m r)) (see _ _ (window n q)) o = newest_comm _ _ o
effect_comm _ _ o = refl

foldl-effect_perm :
    {cs ds : List Call}
    → Permᴰ cs ds
    → (o : Option View) → foldl (λ o c. effect c o) o cs ≡ foldl (λ o c. effect c o) o ds
foldl-effect_perm Permᴰ.nil o = refl
foldl-effect_perm (Permᴰ.cons {a} {b} {l₁} {l₂} e p) o =
    foldl-effect_perm p (effect a o) ∙ ap (λ c. foldl (λ o c. effect c o) (effect c o) l₂) e
foldl-effect_perm (Permᴰ.swap {a} {b} {a'} {b'} {l} e f) o =
    ap (λ o. foldl (λ o c. effect c o) o l)
      (effect_comm b a o ∙ ap₂ (λ c d. effect c (effect d o)) e f)
foldl-effect_perm (Permᴰ.trans p q) o = foldl-effect_perm p o ∙ foldl-effect_perm q o

Option_View_set : IsSet (Option View)
Option_View_set = hlevel

-- From a throttle that knows both or neither of a window's reset and its requests left, the order in
-- which the threads' responses and other calls arrive makes no difference to the window that is kept.
pub view_any_order :
    (cs ds : List Call) (t : Throttle)
    → IsPaired t
    → Perm cs ds
    → view (calls cs t) ≡ view (calls ds t)
view_any_order cs ds t p perm =
    calls-view cs t p
    ∙ ∥∥₁_elim perm (Option_View_set _ _) (λ d. foldl-effect_perm d (view t))
    ∙ sym (calls-view ds t p)
