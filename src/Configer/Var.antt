-- ===== src/Configer/Var.antt =====
-- `ConfigerVar` (spike/base/Configer.h): a value and the callbacks that hear of its changes. A callback may throw; what
-- it does otherwise is a change of the world `W`. Parameters are `==` of the type and the conversion from text,
-- which may throw. The map of callbacks is the list of its entries in the order of a walk over it.
pub mod Change
pub mod Listeners
use lim_webserver.Base.{
  ℕ, suc, ◌==◌, if◌then◌else◌, Bool, true, false, Option, none, some, List, [], ◌∷◌,
}

module _ (T W : Type 0) where
  -- The world behind the callback, and whether it returned.
  abbrev pub Callback : Type 0
  Callback = T → T → W → Bool × W

  pub record ConfigerVar : Type 0 where
    pub value : T
    pub callback_map : List (ℕ × Callback)

module _ {T W : Type 0} where
  -- The loop of `setValue`, which a callback that throws ends.
  unfoldable pub call_all : List (ℕ × Callback T W) → Callback T W
  call_all [] old new w = (true, w)
  call_all ((_, f) ∷ fs) old new w =
      let (returned, w') = f old new w in
      let rest = call_all fs old new w' in if returned then rest else (false, w')

  -- The second critical section of `setValue`.
  unfoldable pub store_value : Option T → ConfigerVar T W → ConfigerVar T W
  store_value none var = var
  store_value (some v) var = record var { value = v }

  module _ (eq : T → T → Bool) where
    -- The first critical section of `setValue`: `none` where it returns early or a callback throws.
    unfoldable pub notify : T → ConfigerVar T W → W → Bool × Option T × W
    notify v var w =
        if eq v var.value
        then (true, none, w)
        else (let (returned, w') = call_all var.callback_map var.value v w in
            (returned, if returned then some v else none, w'))

    -- `setValue`: whether it returned, and what it left.
    unfoldable pub set_value : T → ConfigerVar T W → W → Bool × ConfigerVar T W × W
    unfolding notify store_value
    set_value v var w =
        let (returned, changed, w') = notify v var w in (returned, store_value changed var, w')

    -- `fromString` behind the conversion, `none` where that throws.
    unfoldable pub set_read : Option T → ConfigerVar T W → W → Bool × ConfigerVar T W × W
    set_read none var w = (false, var, w)
    set_read (some v) var w = set_value v var w

    -- `fromString`, which returns false where something was thrown.
    unfoldable pub from_string :
        (List ℕ → Option T) → List ℕ → ConfigerVar T W → W → Bool × ConfigerVar T W × W
    unfolding set_read
    from_string parse text var w = set_read (parse text) var w

  -- `m_callback_map.find`
  pub find_callback : ℕ → List (ℕ × Callback T W) → Option (Callback T W)
  find_callback key [] = none
  find_callback key ((id, f) ∷ fs) = if id == key then some f else find_callback key fs

  pub erase_callback : ℕ → List (ℕ × Callback T W) → List (ℕ × Callback T W)
  erase_callback key [] = []
  erase_callback key ((id, f) ∷ fs) =
      if id == key then erase_callback key fs else (id, f) ∷ erase_callback key fs

  -- `m_callback_map[key] = callback`
  pub put_callback : ℕ → Callback T W → List (ℕ × Callback T W) → List (ℕ × Callback T W)
  put_callback key g [] = (key, g) ∷ []
  put_callback key g ((id, f) ∷ fs) =
      if id == key then (key, g) ∷ fs else (id, f) ∷ put_callback key g fs

  -- `addListener`, with the static counter of the type; the new count is the key.
  unfoldable pub add_listener : Callback T W → ℕ → ConfigerVar T W → ℕ × ConfigerVar T W
  add_listener callback func_id var = (
    suc func_id,
    record var { callback_map = put_callback (suc func_id) callback var.callback_map },
  )

  unfoldable pub del_listener : ℕ → ConfigerVar T W → ConfigerVar T W
  del_listener key var = record var { callback_map = erase_callback key var.callback_map }

  unfoldable pub clear_listener : ConfigerVar T W → ConfigerVar T W
  clear_listener var = record var { callback_map = [] }

  unfoldable pub get_listener : ℕ → ConfigerVar T W → Option (Callback T W)
  get_listener key var = find_callback key var.callback_map
