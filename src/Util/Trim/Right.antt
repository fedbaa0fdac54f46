-- ===== src/Util/Trim/Right.antt =====
-- `StringUtil::TrimRight` and `StringUtil::Trim` (spike/base/Util.cpp) at the end of a text.
use lim_webserver.Base.{ℕ, suc, ◌+◌, ◌-◌, ◌≡◌, arith, false, some}
use lim_webserver.Base.{List, [], ◌∷◌, ◌++◌, length, take_append_left, take_all, length-append}
use lim_webserver.Util.Trim.{is_one_of, find_first_not_of, find_last_not_of, trim, trim_right}

find_last_not_of-append :
    (delimit s : List ℕ) (c : ℕ)
    → is_one_of delimit c ≡ false
    → find_last_not_of delimit (s ++ (c ∷ [])) ≡ some (length s)
unfolding find_last_not_of
find_last_not_of-append delimit [] c h = rw h
find_last_not_of-append delimit (x ∷ s) c h = rw (find_last_not_of-append delimit s c h)

-- `TrimRight` drops the last byte of a text that ends in a byte outside `delimit`, although that byte
-- is not to be trimmed.
pub trim_right-append :
    (delimit s : List ℕ) (c : ℕ)
    → is_one_of delimit c ≡ false
    → trim_right (s ++ (c ∷ [])) delimit ≡ s
unfolding trim_right
trim_right-append delimit s c h =
    rw (trim_right, find_last_not_of-append delimit s c h) (take_append_left s (c ∷ []))

last_index : (n : ℕ) → n - 0 + 1 ≡ suc n
last_index n = omega arith

-- `Trim` keeps a text whose first and last bytes lie outside `delimit`.
pub trim_kept :
    (delimit s : List ℕ) (a c : ℕ)
    → is_one_of delimit a ≡ false
    → is_one_of delimit c ≡ false
    → trim (a ∷ (s ++ (c ∷ []))) delimit ≡ a ∷ (s ++ (c ∷ []))
unfolding trim find_first_not_of
trim_kept delimit s a c h g =
    rw (trim, find_first_not_of, h, find_last_not_of-append delimit (a ∷ s) c g)
      (take_all (a ∷ (s ++ (c ∷ []))) _ (omega (arith, length-append s (c ∷ []))))
