-- ===== src/Log/Pattern/Expand.antt =====
-- A pattern of `LogFormatter` (spike/splog/LogFormatter.cpp) by substitution, against its parser.
use lim_webserver.Base.{
  ℕ, ◌+◌, ◌≤◌, ◌≡◌, refl, arith, length, length-append, ap, ◌∙◌, Bool, true, false, ◌||◌, ◌==◌,
  if◌then◌else◌, Option, none, some, List, [], ◌∷◌, ◌++◌, codes, append_assoc, append-nil,
  Bool-cases, inl, inr,
}
use lim_webserver.Log.Pattern.{
  LogMessage, FormatItem, item_output, text, find_item, LogFormatter, push_front, create_item,
  scan_status, scanning, parse, init_formatter, format_items, format,
}
use lim_webserver.Log.Stream.{small_buffer, put_output}
use lim_webserver.Log.Stream.Bounds.{output_text, put_output_whole}

-- What an item writes where there is room.
unfoldable pub item_text : LogMessage → FormatItem → List ℕ
unfolding output_text
item_text m i = output_text (item_output m i)

all_texts : LogMessage → List FormatItem → List ℕ
all_texts m [] = []
all_texts m (i ∷ is) = item_text m i ++ all_texts m is

full_text : LogFormatter → LogMessage → List ℕ
full_text f m = all_texts m f.items

-- The text of a placeholder.
unfoldable pub placeholder_text : LogMessage → Option FormatItem → List ℕ
placeholder_text m none = codes "<error format>"
placeholder_text m (some i) = item_text m i

-- A pattern with every placeholder replaced. A `%` at the end of the pattern gives nothing.
unfoldable pub expand : LogMessage → List ℕ → List ℕ
expand m [] = []
expand m (c ∷ []) = if c == b'%' then [] else c ∷ []
expand m (c ∷ d ∷ cs) =
    let replaced = expand m cs in
    let kept = expand m (d ∷ cs) in
    if c == b'%' then placeholder_text m (find_item d) ++ replaced else c ∷ kept

abbrev pub is_none : Option FormatItem → Bool
is_none none = true
is_none (some i) = false

-- Some placeholder of the pattern is not in `format_item_map`.
unfoldable pub has_unknown : List ℕ → Bool
has_unknown [] = false
has_unknown (c ∷ []) = false
has_unknown (c ∷ d ∷ cs) =
    let later = has_unknown cs in
    let next = has_unknown (d ∷ cs) in if c == b'%' then is_none (find_item d) || later else next

full_text-create_item :
    (m : LogMessage) (o : Option FormatItem) (f : LogFormatter)
    → full_text (create_item o f) m ≡ placeholder_text m o ++ full_text f m
unfolding full_text all_texts create_item push_front item_text item_output output_text
    placeholder_text
full_text-create_item m none f = refl
full_text-create_item m (some i) f = refl

full_text-push_front :
    (m : LogMessage) (s : List ℕ) (f : LogFormatter)
    → full_text (push_front (text s) f) m ≡ s ++ full_text f m
unfolding full_text all_texts push_front item_text item_output output_text
full_text-push_front m s f = refl

scan_status_lem :
    (m : LogMessage) (cs : List ℕ)
    → full_text (parse scan_status cs) m ≡ full_text (parse (scanning []) cs) m
unfolding parse full_text all_texts push_front item_text item_output output_text
scan_status_lem m [] = refl
scan_status_lem m (c ∷ cs) = refl

scanning_lem :
    (m : LogMessage) (s cs : List ℕ) → full_text (parse (scanning s) cs) m ≡ s ++ expand m cs
unfolding parse expand full_text all_texts
scanning_lem m s [] = full_text-push_front m s (record { items = []; error = false })
scanning_lem m s (c ∷ []) = elim (Bool-cases (c == b'%')) [
  | inl e ↦ rw e (full_text-push_front m s (record { items = []; error = false }))
  | inr e ↦ rw e (
      full_text-push_front m (s ++ (c ∷ [])) (record { items = []; error = false })
      ∙ append-nil (s ++ (c ∷ [])))
]
scanning_lem m s (c ∷ d ∷ cs) = elim (Bool-cases (c == b'%')) [
  | inl e ↦ rw e (
      full_text-push_front m s (create_item (find_item d) (parse scan_status cs))
      ∙ ap (λ t. s ++ t)
          (full_text-create_item m (find_item d) (parse scan_status cs)
            ∙ ap (λ t. placeholder_text m (find_item d) ++ t)
                (scan_status_lem m cs ∙ scanning_lem m [] cs)))
  | inr e ↦
      rw e (scanning_lem m (s ++ (c ∷ [])) (d ∷ cs) ∙ append_assoc s (c ∷ []) (expand m (d ∷ cs)))
]

full_text-init_formatter :
    (pattern : List ℕ) (m : LogMessage) → full_text (init_formatter pattern) m ≡ expand m pattern
unfolding init_formatter
full_text-init_formatter pattern m = scan_status_lem m pattern ∙ scanning_lem m [] pattern

-- While 48 bytes are left at the end, all items are written whole.
format_items_whole :
    (m : LogMessage) (is : List FormatItem) (buffer : List ℕ)
    → length buffer + length (all_texts m is) + 48 ≤ small_buffer
    → format_items m is buffer ≡ buffer ++ all_texts m is
unfolding format_items all_texts item_text
format_items_whole m [] buffer h = simp append-nil
format_items_whole m (i ∷ is) buffer h =
    let whole : put_output small_buffer (item_output m i) buffer ≡ buffer ++ item_text m i =
      put_output_whole small_buffer (item_output m i) buffer (omega arith)
        (omega (arith, h, length-append (item_text m i) (all_texts m is))) in
    ap (format_items m is) whole
    ∙ format_items_whole m is (buffer ++ item_text m i) (
        omega (
          arith,
          h,
          length-append (item_text m i) (all_texts m is),
          length-append buffer (item_text m i),
        ))
    ∙ append_assoc buffer (item_text m i) (all_texts m is)

-- What a formatter writes for a message into a new stream is its pattern with every placeholder replaced: `%%` by
-- a percent sign, one that is not known by an error text, and a `%` at the end by nothing; if that
-- leaves 48 of the 4000 bytes of the stream's buffer.
pub format-init_formatter :
    (pattern : List ℕ) (m : LogMessage)
    → length (expand m pattern) + 48 ≤ small_buffer
    → format (init_formatter pattern) m [] ≡ expand m pattern
unfolding format full_text
format-init_formatter pattern m h =
    let e = full_text-init_formatter pattern m in
    format_items_whole m (init_formatter pattern).items [] (rw e (omega (arith, h))) ∙ e

scan_status-error : (cs : List ℕ) → (parse scan_status cs).error ≡ (parse (scanning []) cs).error
unfolding parse push_front
scan_status-error [] = refl
scan_status-error (c ∷ cs) = refl

create_item-error :
    (o : Option FormatItem) (f : LogFormatter) → (create_item o f).error ≡ (is_none o || f.error)
unfolding create_item push_front
create_item-error none f = refl
create_item-error (some i) f = refl

scanning-error : (s cs : List ℕ) → (parse (scanning s) cs).error ≡ has_unknown cs
unfolding parse has_unknown push_front
scanning-error s [] = refl
scanning-error s (c ∷ []) = elim (Bool-cases (c == b'%')) [ inl e ↦ rw e | inr e ↦ rw e ]
scanning-error s (c ∷ d ∷ cs) = elim (Bool-cases (c == b'%')) [
  | inl e ↦ rw e (
      create_item-error (find_item d) (parse scan_status cs)
      ∙ ap (λ b. is_none (find_item d) || b) (scan_status-error cs ∙ scanning-error [] cs))
  | inr e ↦ rw e (scanning-error (s ++ (c ∷ [])) (d ∷ cs))
]

-- `isError` holds exactly of the patterns with a placeholder that is not known.
pub init_formatter-error : (pattern : List ℕ) → (init_formatter pattern).error ≡ has_unknown pattern
unfolding init_formatter
init_formatter-error pattern = scan_status-error pattern ∙ scanning-error [] pattern
