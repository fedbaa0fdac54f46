-- ===== src/Log/Manager/Deliver.antt =====
-- The loop of `Logger::log` over the appenders (spike/splog/Logger.cpp): what arrives in the file of each.
use mathlib.Core.Path.{subst}
use lim_webserver.Base.{
  ℕ, zero, suc, ◌≡◌, ◌≢◌, refl, ap, sym, ◌∙◌, arith, leb, ◌==◌, ==_iff, Bool, true, false, ◌&&◌,
  if◌then◌else◌, Bool-cases, inl, inr, Option, none, some, List, [], ◌∷◌, ◌++◌, append_assoc,
  append-nil, get_elem?, set,
}
use lim_webserver.Base.Outcome.{Returns, Returns-bind, Returns-weaken}
use lim_webserver.Log.Appender.{
  Message, OutputAppender, level_number, passes, format_message, append_text, with_sink, do_append,
}
use lim_webserver.Log.Appender.Sink.{Sink, TakesAll, append_sink-all}
use lim_webserver.Log.Manager.{Appender, append_each}
use lim_webserver.Log.Manager.Pointers.{get_elem?-set_self, get_elem?-set_ne}

abbrev pub held : Option Sink → List ℕ
held none = []
held (some s) = s.bytes

-- The bytes in the file of an appender.
abbrev pub file_of : Appender → List ℕ
file_of a = held a.output.sink

abbrev text_of : Option (Message → List ℕ) → Message → List ℕ
text_of none m = []
text_of (some f) m = f m

-- What one message adds to the file of an output: its text, if the output is started and its level lets
-- the message pass.
unfoldable pub share : Message → OutputAppender → List ℕ
share m o =
    if o.started && leb (level_number o.level) (level_number m.level)
    then text_of o.formatter m
    else []

abbrev pub repeat : ℕ → List ℕ → List ℕ
repeat zero t = []
repeat (suc n) t = t ++ repeat n t

-- How often a pointer stands in a list.
abbrev pub count : ℕ → List ℕ → ℕ
count j [] = 0
count j (p ∷ ps) = if p == j then suc (count j ps) else count j ps

-- The output has a formatter and a sink, whose file takes each text whole in one call of `fwrite`.
pub record IsReady (o : OutputAppender) : Type 0 where
  pub maker : Message → List ℕ
  pub has_formatter : o.formatter ≡ some maker
  pub sunk : Sink
  pub has_sink : o.sink ≡ some sunk
  pub takes_all : TakesAll sunk

-- These appenders are on the heap and ready.
abbrev pub AreReady : List ℕ → List Appender → Type 0
AreReady [] heap = Unit {0}
AreReady (p ∷ ps) heap =
    ((a : Appender) × (get_elem? heap p ≡ some a) × IsReady a.output) × AreReady ps heap

-- The output has `t` more in its file.
record IsGiven (t : List ℕ) (o o' : OutputAppender) : Type 0 where
  keeps : IsReady o → IsReady o'
  same_started : o'.started ≡ o.started
  same_level : o'.level ≡ o.level
  same_formatter : o'.formatter ≡ o.formatter
  gained : held o'.sink ≡ held o.sink ++ t

IsGiven-refl : (o : OutputAppender) → IsGiven [] o o
IsGiven-refl o = record {
  keeps = λ r. r;
  same_started = refl;
  same_level = refl;
  same_formatter = refl;
  gained = sym (append-nil (held o.sink));
}

IsGiven-trans :
    (t u : List ℕ) (o o1 o2 : OutputAppender)
    → IsGiven t o o1
    → IsGiven u o1 o2
    → IsGiven (t ++ u) o o2
IsGiven-trans t u o o1 o2 g h = record {
  keeps = λ r. h.keeps (g.keeps r);
  same_started = h.same_started ∙ g.same_started;
  same_level = h.same_level ∙ g.same_level;
  same_formatter = h.same_formatter ∙ g.same_formatter;
  gained = h.gained ∙ ap (λ s. s ++ u) g.gained ∙ append_assoc (held o.sink) t u;
}

share_same :
    (m : Message) (t : List ℕ) (o o' : OutputAppender) → IsGiven t o o' → share m o' ≡ share m o
unfolding share
share_same m t o o' g = rw (g.same_started, g.same_level, g.same_formatter) refl

ready_lem :
    (o : OutputAppender) (r : IsReady o)
    → record o { formatter = some r.maker; sink = some r.sunk } ≡ o
ready_lem o r = λ i. record o { formatter = sym r.has_formatter i; sink = sym r.has_sink i }

module _ (m : Message) where
  -- An output whose formatter and sink are there.
  do_append_there :
      (o : OutputAppender) (f : Message → List ℕ) (s : Sink) (started passing : Bool)
      → TakesAll s
      → passes o.level m.level ≡ passing
      → Returns
          (do_append m (record o { started = started; formatter = some f; sink = some s }))
          (λ o'.
            IsGiven
              (share m (record o { started = started; formatter = some f; sink = some s }))
              (record o { started = started; formatter = some f; sink = some s })
              o')
  unfolding do_append format_message append_text with_sink share passes
  do_append_there o f s false passing h e = IsGiven-refl _
  do_append_there o f s true false h e = rw e (rw (append_sink-all [] s h) (given []))
    where
      given :
          (t : List ℕ)
          → IsGiven t
              (record o { started = true; formatter = some f; sink = some s })
              (record o {
                started = true;
                formatter = some f;
                sink = some (record s { bytes = s.bytes ++ t });
              })
      given t = record {
        keeps = λ r. record {
          maker = f;
          has_formatter = refl;
          sunk = record s { bytes = s.bytes ++ t };
          has_sink = refl;
          takes_all = h;
        };
        same_started = refl;
        same_level = refl;
        same_formatter = refl;
        gained = refl;
      }
  do_append_there o f s true true h e = rw e (
      rw (append_sink-all (f m) s h) (record {
        keeps = λ r. record {
          maker = f;
          has_formatter = refl;
          sunk = record s { bytes = s.bytes ++ f m };
          has_sink = refl;
          takes_all = h;
        };
        same_started = refl;
        same_level = refl;
        same_formatter = refl;
        gained = refl;
      }))

  do_append-IsGiven :
      (o : OutputAppender) → IsReady o → Returns (do_append m o) (IsGiven (share m o) o)
  do_append-IsGiven o r =
      subst (λ (o : OutputAppender). Returns (do_append m o) (IsGiven (share m o) o))
        (ready_lem o r)
        (do_append_there o r.maker r.sunk o.started (passes o.level m.level) r.takes_all refl)

  -- What the appender at `j` has got when the one at `p` was given the message.
  abbrev IsNext : ℕ → List Appender → List Appender → Type 0
  IsNext p heap heap' =
      (j : ℕ) (b : Appender)
      → get_elem? heap j ≡ some b
      → (b' : Appender) × (get_elem? heap' j ≡ some b')
        × IsGiven (if p == j then share m b.output else []) b.output b'.output

  next_lem :
      (p : ℕ) (a : Appender) (o : OutputAppender) (heap : List Appender)
      → get_elem? heap p ≡ some a
      → IsGiven (share m a.output) a.output o
      → IsNext p heap (set heap p (record a { output = o }))
  next_lem p a o heap h g j b hb = elim (Bool-cases (p == j)) [
    | inl e ↦ rw e (here ((==_iff p j).0 e))
    | inr e ↦ rw e (
      b,
      get_elem?-set_ne heap p j (record a { output = o }) (λ x. differ e x) ∙ hb,
      IsGiven-refl b.output,
    )
  ]
    where
      differ : (p == j) ≡ false → j ≢ p
      differ e x = ground (arith, e, x)

      same : p ≡ j → a ≡ b
      same x = cc (h, hb, x)

      here :
          p ≡ j
          → (b' : Appender) × (get_elem? (set heap p (record a { output = o })) j ≡ some b')
            × IsGiven (share m b.output) b.output b'.output
      here x = (
        record a { output = o },
        ap (get_elem? (set heap p (record a { output = o }))) (sym x)
            ∙ get_elem?-set_self heap p a (record a { output = o }) h,
        subst (λ (c : Appender). IsGiven (share m c.output) c.output o) (same x) g,
      )

  AreReady-next :
      (p : ℕ) (ps : List ℕ) (heap heap' : List Appender)
      → IsNext p heap heap'
      → AreReady ps heap
      → AreReady ps heap'
  AreReady-next p [] heap heap' n r = tt
  AreReady-next p (q ∷ ps) heap heap' n ((a, h, r), rs) =
      let (a', h', g) = n q a h in ((a', h', g.keeps r), AreReady-next p ps heap heap' n rs)

  abbrev Arrived : List ℕ → List Appender → List Appender → Type 0
  Arrived ps heap heap' =
      (j : ℕ) (b : Appender)
      → get_elem? heap j ≡ some b
      → (b' : Appender) × (get_elem? heap' j ≡ some b')
        × IsGiven (repeat (count j ps) (share m b.output)) b.output b'.output

  Arrived-cons :
      (p : ℕ) (ps : List ℕ) (heap heap1 heap' : List Appender)
      → IsNext p heap heap1
      → Arrived ps heap1 heap'
      → Arrived (p ∷ ps) heap heap'
  Arrived-cons p ps heap heap1 heap' n r j b h =
      let (b1, h1, g1) = n j b h in
      let (b', h', g') = r j b1 h1 in
      (
        b',
        h',
        subst (λ t. IsGiven t b.output b'.output)
            (ap (λ t. (if p == j then share m b.output else []) ++ repeat (count j ps) t)
                (share_same m _ b.output b1.output g1)
              ∙ joined (p == j))
            (IsGiven-trans _ _ b.output b1.output b'.output g1 g'),
      )
    where
      joined :
          (c : Bool)
          → (if c then share m b.output else []) ++ repeat (count j ps) (share m b.output)
            ≡ repeat (if c then suc (count j ps) else count j ps) (share m b.output)
      joined true = refl
      joined false = refl

  append_each-Arrived :
      (ps : List ℕ) (heap : List Appender)
      → AreReady ps heap
      → Returns (append_each m ps heap) (Arrived ps heap)
  unfolding append_each
  append_each-Arrived [] heap r = λ j b h. (b, h, IsGiven-refl b.output)
  append_each-Arrived (p ∷ ps) heap ((a, h, ready), rs) =
      rw (h, append_each)
        (Returns-bind (IsGiven (share m a.output) a.output) (Arrived (p ∷ ps) heap)
          (do_append m a.output) (λ o. append_each m ps (set heap p (record a { output = o })))
          (do_append-IsGiven a.output ready)
          λ o g.
            Returns-weaken (Arrived ps (set heap p (record a { output = o })))
              (Arrived (p ∷ ps) heap) (append_each m ps (set heap p (record a { output = o })))
              (append_each-Arrived ps (set heap p (record a { output = o })) (
                AreReady-next p ps heap (set heap p (record a { output = o }))
                  (next_lem p a o heap h g) rs))
              (λ heap' arrived.
                Arrived-cons p ps heap (set heap p (record a { output = o })) heap'
                  (next_lem p a o heap h g) arrived))

  -- The file of each appender that is on the heap has the share of the message once for each
  -- time the appender is in the list.
  pub append_each-file :
      (ps : List ℕ) (heap : List Appender)
      → AreReady ps heap
      → Returns (append_each m ps heap) λ heap'.
        (j : ℕ) (a : Appender)
        → get_elem? heap j ≡ some a
        → (a' : Appender) × (get_elem? heap' j ≡ some a')
          × (file_of a' ≡ file_of a ++ repeat (count j ps) (share m a.output))
  append_each-file ps heap r =
      Returns-weaken (Arrived ps heap) _ (append_each m ps heap) (append_each-Arrived ps heap r)
        λ heap' arrived j a h. let (a', h', g) = arrived j a h in (a', h', g.gained)
