-- ===== src/Configer/Var/Listeners.antt =====
-- The keys of listeners (spike/base/Configer.h).
use lim_webserver.Base.{
  ℕ, suc, ◌≤◌, ◌≡◌, ◌==◌, ne→==, if◌then◌else◌, refl, arith, none, some, List, [], ◌∷◌,
}
use lim_webserver.Configer.Var.{
  Callback, ConfigerVar, find_callback, erase_callback, put_callback, add_listener, del_listener,
  get_listener,
}

module _ {T W : Type 0} where
  find_callback-put :
      (j k : ℕ) (g : Callback T W) (fs : List (ℕ × Callback T W))
      → find_callback j (put_callback k g fs) ≡ (if k == j then some g else find_callback j fs)
  unfolding find_callback put_callback
  find_callback-put j k g [] = refl
  find_callback-put j k g ((i, f) ∷ fs) = ground (arith, find_callback-put j k g fs)

  find_callback-erase :
      (j k : ℕ) (fs : List (ℕ × Callback T W))
      → find_callback j (erase_callback k fs) ≡ (if k == j then none else find_callback j fs)
  unfolding find_callback erase_callback
  find_callback-erase j k [] = ground arith
  find_callback-erase j k ((i, f) ∷ fs) = ground (arith, find_callback-erase j k fs)

  -- No key is above the count of keys that were given out.
  abbrev pub AreCounted : ℕ → List (ℕ × Callback T W) → Type 0
  AreCounted n [] = Unit {0}
  AreCounted n ((id, f) ∷ fs) = (id ≤ n) × AreCounted n fs

  find_callback_above :
      (n : ℕ) (fs : List (ℕ × Callback T W)) → AreCounted n fs → find_callback (suc n) fs ≡ none
  unfolding find_callback
  find_callback_above n [] h = refl
  find_callback_above n ((id, f) ∷ fs) h =
      rw (ne→== id (suc n) (λ e. omega (arith, e, h.0))) (find_callback_above n fs h.1)

  AreCounted-put :
      (n : ℕ) (g : Callback T W) (fs : List (ℕ × Callback T W))
      → AreCounted n fs
      → AreCounted (suc n) (put_callback (suc n) g fs)
  unfolding put_callback
  AreCounted-put n g [] h = (omega arith, tt)
  AreCounted-put n g ((id, f) ∷ fs) h =
      rw (ne→== id (suc n) (λ e. omega (arith, e, h.0))) (omega arith, AreCounted-put n g fs h.1)

  -- `addListener` gives the callback a key that no callback had; behind that key is the callback, behind every other key what
  -- was there, and `delListener` of the new key gives the callbacks back as they were. No key was above the
  -- count of keys given out, and none is above the new count.
  pub add_listener-fresh :
      (g : Callback T W) (func_id j : ℕ) (var : ConfigerVar T W)
      → AreCounted func_id var.callback_map
      → let (key, var') = add_listener g func_id var in
        (get_listener key var ≡ none)
        × (get_listener j var' ≡ (if key == j then some g else get_listener j var))
        × (get_listener j (del_listener key var') ≡ get_listener j var)
        × AreCounted key var'.callback_map
  unfolding add_listener del_listener get_listener
  add_listener-fresh g func_id j var h = (
    find_callback_above func_id var.callback_map h,
    find_callback-put j (suc func_id) g var.callback_map,
    ground (
      arith,
      find_callback-erase j (suc func_id) (put_callback (suc func_id) g var.callback_map),
      find_callback-put j (suc func_id) g var.callback_map,
      find_callback_above func_id var.callback_map h,
    ),
    AreCounted-put func_id g var.callback_map h,
  )
