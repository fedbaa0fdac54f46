-- ===== src/Configer/Var/Change.antt =====
-- What `setValue` and `fromString` of a `ConfigerVar` leave, also when two threads set a value
-- (spike/base/Configer.h).
use lim_webserver.Base.{
  ℕ, ◌≡◌, refl, Bool, true, false, Option, none, some, List, Bool-cases, inl, inr,
}
use lim_webserver.Configer.Var.{
  ConfigerVar, call_all, notify, store_value, set_value, set_read, from_string,
}

module _ {T W : Type 0} (eq : T → T → Bool) where
  -- The variable after `fromString` returned this.
  abbrev pub IsStored : Option T → ConfigerVar T W → Bool → ConfigerVar T W → Type 0
  IsStored read var false var' = var' ≡ var
  IsStored read var true var' =
      (v : T) × (read ≡ some v) × (eq v var'.value ≡ true) × (var'.callback_map ≡ var.callback_map)

module _ {T W : Type 0} (eq : T → T → Bool) (parse : List ℕ → Option T) where
  set_value-IsStored :
      (v : T) (var : ConfigerVar T W) (w : W)
      → eq v v ≡ true
      → IsStored eq (some v) var (set_value eq v var w).0 (set_value eq v var w).1
  unfolding set_value notify store_value
  set_value-IsStored v var w same = elim (Bool-cases (eq v var.value)) [
    | inl h ↦ rw h (v, refl, h, refl)
    | inr h ↦ elim (Bool-cases (call_all var.callback_map var.value v w).0) [
      | inl k ↦ rw (h, k) (v, refl, same, refl)
      | inr k ↦ rw (h, k) refl
    ]
  ]

  -- When `fromString` returns true, the variable has a value equal to what its text stands for, and when it returns
  -- false, because the text stands for none or a callback threw, the variable is as it was. `==` holds of a value and itself.
  pub from_string-IsStored :
      (text : List ℕ) (var : ConfigerVar T W) (w : W)
      → ((v : T) → eq v v ≡ true)
      → IsStored eq
          (parse text)
          var
          (from_string eq parse text var w).0
          (from_string eq parse text var w).1
  unfolding from_string set_read
  from_string-IsStored text var w same = by_value (parse text)
    where
      by_value : (o : Option T) → IsStored eq o var (set_read eq o var w).0 (set_read eq o var w).1
      by_value none = refl
      by_value (some v) = set_value-IsStored v var w (same v)

notify_new :
    {T W : Type 0} (eq : T → T → Bool) (v : T) (var : ConfigerVar T W) (w : W)
    → eq v var.value ≡ false
    → (call_all var.callback_map var.value v w).0 ≡ true
    → notify eq v var w ≡ (true, some v, (call_all var.callback_map var.value v w).1)
unfolding notify
notify_new eq v var w h k = rw h (rw k refl)

-- Two threads set a variable at a time, to values that both differ from the old one, and no callback throws. The
-- callbacks hear of `a` first and of `b` last, both times as a change from the old value; when the second
-- thread then stores first, the variable has the value `a` in the end.
pub set_value_crossed :
    {T W : Type 0} (eq : T → T → Bool) (a b : T) (var : ConfigerVar T W) (w : W)
    → eq a var.value ≡ false
    → eq b var.value ≡ false
    → ((v : T) (w : W) → (call_all var.callback_map var.value v w).0 ≡ true)
    → let (_, stored_a, w1) = notify eq a var w in
      let (_, stored_b, w2) = notify eq b var w1 in
      ((store_value stored_a (store_value stored_b var)).value ≡ a)
      × (w2 ≡ (call_all var.callback_map var.value b (call_all var.callback_map var.value a w).1).1)
unfolding store_value
set_value_crossed eq a b var w ha hb quiet =
    rw
      (
        notify_new eq a var w ha (quiet a w),
        notify_new eq b var (call_all var.callback_map var.value a w).1 hb
            (quiet b (call_all var.callback_map var.value a w).1),
      )
      (refl, refl)
