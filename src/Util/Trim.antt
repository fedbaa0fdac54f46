-- ===== src/Util/Trim.antt =====
-- `StringUtil::Trim`, `TrimLeft` and `TrimRight` (spike/base/Util.cpp).
pub mod Right
use lim_webserver.Base.{
  ℕ, zero, suc, ◌+◌, ◌-◌, Bool, true, false, ◌||◌, Option, none, some, List, [], ◌∷◌,
}
use lim_webserver.Base.{◌==◌, if◌then◌else◌, take, drop, length, ◌≡◌, refl, codes}

abbrev pub is_one_of : List ℕ → ℕ → Bool
is_one_of [] c = false
is_one_of (d ∷ ds) c = c == d || is_one_of ds c

-- `npos` is `none`.
pub find_first_not_of : List ℕ → List ℕ → Option ℕ
find_first_not_of delimit [] = none
find_first_not_of delimit (c ∷ cs) =
    let rest : Option ℕ = elim (find_first_not_of delimit cs) [
      | none ↦ none
      | some n ↦ some (suc n)
    ] in
    if is_one_of delimit c then rest else some 0

pub find_last_not_of : List ℕ → List ℕ → Option ℕ
find_last_not_of delimit [] = none
find_last_not_of delimit (c ∷ cs) = elim (find_last_not_of delimit cs) [
  | none ↦ if is_one_of delimit c then none else some 0
  | some n ↦ some (suc n)
]

-- `substr(pos, n)`
abbrev pub substr : ℕ → ℕ → List ℕ → List ℕ
substr pos n str = take n (drop pos str)

pub trim : List ℕ → List ℕ → List ℕ
trim str delimit = elim (find_first_not_of delimit str) [
  | none ↦ []
  | some begin ↦ elim (find_last_not_of delimit str) [
    | none ↦ drop begin str
    | some end ↦ substr begin (end - begin + 1) str
  ]
]

pub trim_left : List ℕ → List ℕ → List ℕ
trim_left str delimit = elim (find_first_not_of delimit str) [
  | none ↦ []
  | some begin ↦ drop begin str
]

pub trim_right : List ℕ → List ℕ → List ℕ
trim_right str delimit = elim (find_last_not_of delimit str) [
  | none ↦ []
  | some end ↦ substr 0 end str
]

-- The default of `delimit`
abbrev pub blanks : List ℕ
blanks = 32 ∷ 9 ∷ 13 ∷ 10 ∷ []
