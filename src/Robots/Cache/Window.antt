-- ===== src/Robots/Cache/Window.antt =====
-- The window in which a stored robots.txt is used.
use growth_os.Prelude.{
  ℕ, ◌+◌, ◌≤◌, ◌<◌, ◌≡◌, ◌↔◌, ◌⊎◌, inl, inr, refl, sym, subst, some_injective, Option, true, none,
  some, arith, ok, err,
}
use growth_os.Robots.Cache.{
  Datetime, utc, other, datetime_end, day, CacheDecision, invalid_input, evaluate_instants,
  evaluate_robots_cache,
}

utc_injective : {a b : ℕ} → utc a ≡ utc b → a ≡ b
utc_injective e = cc

-- What is refused: an instant that is not canonical, or a file stored after the present instant or
-- so late that its expiry would be past the last instant.
abbrev pub IsRefused : Option Datetime → Datetime → Type 0
IsRefused stored_at now =
    (now ≡ other)
    ⊎ ((stored_at ≡ some other)
        ⊎ ((s : ℕ) × ((n : ℕ) × ((stored_at ≡ some (utc s))
                × ((now ≡ utc n) × ((n < s) ⊎ (datetime_end ≤ s + day)))))))

instants_refused :
    (s n : ℕ) → evaluate_instants s n ≡ err invalid_input → (n < s) ⊎ (datetime_end ≤ s + day)
unfolding evaluate_instants
instants_refused s n h = ground arith

refuses_instants :
    (s n : ℕ) → (n < s) ⊎ (datetime_end ≤ s + day) → evaluate_instants s n ≡ err invalid_input
unfolding evaluate_instants
refuses_instants s n h = ground arith

-- Whatever is given for the two instants, the answer is `invalid_input` exactly where one of them
-- is given and is not canonical, or both are canonical and the file was stored after the present
-- instant or its expiry would be past the last instant.
pub evaluate_robots_cache-invalid :
    (stored_at : Option Datetime) (now : Datetime)
    → (evaluate_robots_cache stored_at now ≡ err invalid_input) ↔ IsRefused stored_at now
unfolding evaluate_robots_cache
evaluate_robots_cache-invalid stored_at other = (λ e. inl refl, λ r. refl)
evaluate_robots_cache-invalid none (utc n) =
    (λ e. cc, λ r. elim r [ inl h ↦ cc | inr (inl h) ↦ cc | inr (inr (s, (m, (h, rest)))) ↦ cc ])
evaluate_robots_cache-invalid (some other) (utc n) = (λ e. inr (inl refl), λ r. refl)
evaluate_robots_cache-invalid (some (utc s)) (utc n) = (
  λ e. inr (inr (s, (n, (refl, (refl, instants_refused s n e))))),
  λ r. elim r [
    | inl h ↦ cc
    | inr (inl h) ↦ cc
    | inr (inr (s', (n', (h, (k, late))))) ↦ refuses_instants s n (
        subst (λ a. (n < a) ⊎ (datetime_end ≤ a + day)) (sym (utc_injective (some_injective h)))
          (subst (λ b. (b < s') ⊎ (datetime_end ≤ s' + day)) (sym (utc_injective k)) late))
  ],
)

-- A decision on a stored file lets it be used exactly from the instant it was stored at until 24
-- hours after, and reports that end.
pub reusable-window :
    (stored_at now : ℕ) (decision : CacheDecision)
    → evaluate_robots_cache (some (utc stored_at)) (utc now) ≡ ok decision
    → ((decision.reusable ≡ true) ↔ ((stored_at ≤ now) × (now < stored_at + day)))
      × (decision.expires_at ≡ some (stored_at + day))
unfolding evaluate_robots_cache
reusable-window stored_at now decision e = ground arith
