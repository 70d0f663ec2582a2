-- ===== src/Utils/ThreadPool/Weights.antt =====
-- Sums over the workers.
use tzzero_http.Prelude.{
  ℕ, zero, suc, ◌+◌, ◌≤◌, ◌<◌, ◌≡◌, ◌⊎◌, inl, inr, ltb, Bool-cases, refl, arith, some, List, [],
  ◌∷◌, set, get_elem?, replicate,
}
use tzzero_http.Utils.ThreadPool.{Worker, awake, rouse, rouse_all, total}

module _ (f : Worker → ℕ) where
  -- One worker's change.
  pub total-set :
      (ws : List Worker) (i : ℕ) (w v : Worker)
      → get_elem? ws i ≡ some w
      → total f (set ws i v) + f w ≡ total f ws + f v
  unfolding total
  total-set [] i w v h = cc
  total-set (x ∷ ws) zero w v h = ground arith
  total-set (x ∷ ws) (suc i) w v h = ground (arith, total-set ws i w v)

  -- A worker that counts is found, or the sum is 0.
  pub total-find :
      (ws : List Worker)
      → (total f ws ≡ 0) ⊎ ((i : ℕ) × (w : Worker) × (get_elem? ws i ≡ some w) × (0 < f w))
  unfolding total
  total-find [] = inl refl
  total-find (w ∷ ws) = elim (Bool-cases (ltb 0 (f w))) [
    | inl e ↦ inr (0, w, refl, ground (arith, e))
    | inr e ↦ elim (total-find ws) [
      | inl z ↦ inl (ground (arith, e, z))
      | inr (i, v, q, pos) ↦ inr (suc i, v, q, pos)
    ]
  ]

pub total-le :
    (f g : Worker → ℕ) → ((w : Worker) → f w ≤ g w) → (ws : List Worker) → total f ws ≤ total g ws
unfolding total
total-le f g h [] = omega arith
total-le f g h (w ∷ ws) = omega (arith, h w, total-le f g h ws)

pub total-replicate : (f : Worker → ℕ) (n : ℕ) → f awake ≡ 0 → total f (replicate n awake) ≡ 0
unfolding total
total-replicate f zero h = refl
total-replicate f (suc n) h = omega (arith, total-replicate f n h)

pub total-rouse_all :
    (f g : Worker → ℕ)
    → ((w : Worker) → f (rouse w) ≡ g w)
    → (ws : List Worker) → total f (rouse_all ws) ≡ total g ws
unfolding total rouse_all
total-rouse_all f g h [] = refl
total-rouse_all f g h (w ∷ ws) = omega (arith, h w, total-rouse_all f g h ws)

pub total-add :
    (f g : Worker → ℕ) (ws : List Worker) → total (λ w. f w + g w) ws ≡ total f ws + total g ws
unfolding total
total-add f g [] = refl
total-add f g (w ∷ ws) = omega (arith, total-add f g ws)
