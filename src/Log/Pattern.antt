-- ===== src/Log/Pattern.antt =====
-- `LogFormatter` (spike/splog/LogFormatter.cpp): the parser of a pattern, and what its items put into a
-- `LogStream` for a message. The texts and numbers of a message's fields are given.
pub mod Expand
use lim_webserver.Base.{
  ℕ, Bool, true, false, ◌==◌, if◌then◌else◌, Option, none, some, List, [], ◌∷◌, ◌++◌, codes,
}
use lim_webserver.Base.Words.{ℤ, pos}
use lim_webserver.Log.Stream

-- A message, with the texts of the thread that formats it.
pub record LogMessage : Type 0 where
  pub level : List ℕ
  pub file : List ℕ
  pub line : ℤ
  pub time : List ℕ
  pub thread_id : ℤ
  pub thread_name : List ℕ
  pub content : List ℕ
  pub name : List ℕ

pub data FormatItem : Type 0 where
  text : List ℕ → FormatItem
  level_item file_name_item line_item date_time_item : FormatItem
  thread_id_item thread_name_item message_item new_line_item : FormatItem
  percent_sign_item tab_item elapse_item name_item : FormatItem

-- What `format` of an item puts into the stream.
unfoldable pub item_output : LogMessage → FormatItem → Stream.Output
item_output m (text s) = Stream.text s
item_output m level_item = Stream.text m.level
item_output m file_name_item = Stream.text m.file
item_output m line_item = Stream.integer m.line
item_output m date_time_item = Stream.text m.time
item_output m thread_id_item = Stream.integer m.thread_id
item_output m thread_name_item = Stream.text m.thread_name
item_output m message_item = Stream.text m.content
item_output m new_line_item = Stream.text (10 ∷ [])
item_output m percent_sign_item = Stream.text (b'%' ∷ [])
item_output m tab_item = Stream.text (9 ∷ [])
item_output m elapse_item = Stream.integer (pos 0)
item_output m name_item = Stream.text m.name

-- `format_item_map.find`
unfoldable pub find_item : ℕ → Option FormatItem
find_item c =
    if c == b'p'
    then some level_item
    else if c == b'f'
    then some file_name_item
    else if c == b'l'
    then some line_item
    else if c == b'd'
    then some date_time_item
    else if c == b't'
    then some thread_id_item
    else if c == b'N'
    then some thread_name_item
    else if c == b'm'
    then some message_item
    else if c == b'n'
    then some new_line_item
    else if c == b'%'
    then some percent_sign_item
    else if c == b'T'
    then some tab_item
    else if c == b'r'
    then some elapse_item
    else if c == b'c'
    then some name_item
    else none

pub record LogFormatter : Type 0 where
  pub items : List FormatItem
  pub error : Bool

pub push_front : FormatItem → LogFormatter → LogFormatter
push_front i f = record f { items = i ∷ f.items }

-- The item of a placeholder, in front of what follows it.
pub create_item : Option FormatItem → LogFormatter → LogFormatter
create_item none f = record { items = text (codes "<error format>") ∷ f.items; error = true }
create_item (some i) f = push_front i f

-- Where the loop of `LogFormatter::init` stands: at `SCAN_STATUS`, in its inner loop with the text from `str_begin`
-- on, or at `CREATE_STATUS`.
pub data ParseStatus : Type 0 where
  scan_status : ParseStatus
  scanning : List ℕ → ParseStatus
  create_status : ParseStatus

-- `init` from there on, with the rest of the pattern.
pub parse : ParseStatus → List ℕ → LogFormatter
parse scan_status [] = record { items = []; error = false }
parse (scanning s) [] = push_front (text s) (record { items = []; error = false })
parse create_status [] = record { items = []; error = false }
parse scan_status (c ∷ cs) =
    let placeholder = parse create_status cs in
    let more = parse (scanning (c ∷ [])) cs in
    if c == b'%' then push_front (text []) placeholder else more
parse (scanning s) (c ∷ cs) =
    let placeholder = parse create_status cs in
    let more = parse (scanning (s ++ (c ∷ []))) cs in
    if c == b'%' then push_front (text s) placeholder else more
parse create_status (c ∷ cs) = create_item (find_item c) (parse scan_status cs)

pub init_formatter : List ℕ → LogFormatter
init_formatter pattern = parse scan_status pattern

-- The loop of `format`, with the bytes in the buffer of the stream.
pub format_items : LogMessage → List FormatItem → List ℕ → List ℕ
format_items m [] buffer = buffer
format_items m (i ∷ is) buffer =
    format_items m is (Stream.put_output Stream.small_buffer (item_output m i) buffer)

pub format : LogFormatter → LogMessage → List ℕ → List ℕ
format f m buffer = format_items m f.items buffer
