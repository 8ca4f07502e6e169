-- ===== src/Threads/Update.antt =====
-- Updates of the maps in `Kernel`.
use tony_henry_niklas.Threads.{update}
use tony_henry_niklas.Common.{ℕ, ◌≡◌, arith, fun_ext}

module _ {ℓ} {A : Type ℓ} (f : ℕ → A) (p : ℕ) (x : A) where
  pub update-update : (y : A) → update (update f p x) p y ≡ update f p y
  update-update y = fun_ext λ q. ground arith

  pub update_self : update f p x p ≡ x
  update_self = ground arith
