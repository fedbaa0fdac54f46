-- ===== src/ByteArray/Codec/Queue.antt =====
-- What it means that a reader takes one value off the unread bytes (spike/net/ByteArray.cpp).
use lim_webserver.Base.{ℕ, ◌+◌, ◌≡◌, sym, arith, ap, ◌∙◌}
use lim_webserver.Base.{List, [], ◌∷◌, ◌++◌, append_assoc, append-nil, length, take, drop}
use lim_webserver.Base.{length-append, take_append_left, drop_append_left}
use lim_webserver.Base.Outcome.{Outcome, ok, thrown, fault, stuck, ◌>>=◌}
use lim_webserver.ByteArray.Store.{ByteArray, write, read}
use lim_webserver.ByteArray.Store.Valid.{IsValid, unread}
use lim_webserver.ByteArray.Store.Reads.{Taken-unread, read-Taken, length-unread}
use lim_webserver.ByteArray.Store.Bytes.{HasRoom, write-Appended, Appended-unread}
use lim_webserver.ByteArray.Codec.{Reader}

-- On every valid array whose unread bytes begin with `bs` the reader returns `a`, and leaves a
-- valid array with the bytes behind `bs` unread.
abbrev pub Reads : {A : Type 0} → Reader A → A → List ℕ → Type 0
Reads m a bs =
    (s : ByteArray) (rest : List ℕ)
    → IsValid s
    → unread s ≡ bs ++ rest
    → (s' : ByteArray) × (m s ≡ ok (a, s')) × IsValid s' × (unread s' ≡ rest)

pub read-Reads : (b : ℕ) (bs : List ℕ) → Reads (read (length (b ∷ bs))) (b ∷ bs) (b ∷ bs)
read-Reads b bs s rest v e =
    let total : length (unread s) ≡ length (b ∷ bs) + length rest =
      ap length e ∙ length-append (b ∷ bs) rest in
    let (s', r, t) =
      read-Taken s (length (b ∷ bs)) v (omega (arith, length-unread v, v.inside)) (omega arith) in
    (
      s',
      r
          ∙ ap (λ (zs : List ℕ). ok (zs, s'))
              (ap (take (length (b ∷ bs))) e ∙ take_append_left (b ∷ bs) rest),
      t.valid,
      Taken-unread s (length (b ∷ bs)) s' t
          ∙ ap (drop (length (b ∷ bs))) e
          ∙ drop_append_left (b ∷ bs) rest,
    )

-- A reader followed by one that may depend on its value.
pub Reads-bind :
    {A B : Type 0} (m : Reader A) (k : A → Reader B) (a : A) (b : B) (bs cs : List ℕ)
    → Reads m a bs
    → Reads (k a) b cs
    → Reads (λ s. m s >>= λ t. k t.0 t.1) b (bs ++ cs)
Reads-bind m k a b bs cs hm hk s rest v e =
    let (s', r, v', e') = hm s (cs ++ rest) v (e ∙ append_assoc bs cs rest) in
    let (s'', r', v'', e'') = hk s' rest v' e' in
    (s'', ap (λ o. o >>= λ t. k t.0 t.1) r ∙ r', v'', e'')

abbrev pub map_reader : {A B : Type 0} → (A → B) → Reader A → Reader B
map_reader f m s = do (a, s') ← m s; ok (f a, s')

pub Reads-map :
    {A B : Type 0} (m : Reader A) (f : A → B) (a : A) (bs : List ℕ)
    → Reads m a bs
    → Reads (map_reader f m) (f a) bs
Reads-map m f a bs hm s rest v e = let (s', r, v', e') = hm s rest v e in (s', rw r, v', e')

-- A writer puts `bs` behind what is unread, wherever they fit and a byte is free.
abbrev pub Writes : (ByteArray → Outcome ByteArray) → List ℕ → Type 0
Writes m bs =
    (s : ByteArray)
    → IsValid s
    → HasRoom s (length bs)
    → (s' : ByteArray) × (m s ≡ ok s') × IsValid s' × (unread s' ≡ unread s ++ bs)

pub write-Writes : (bs : List ℕ) → Writes (write bs) bs
write-Writes bs s v r =
    let (s', e, a) = write-Appended s bs v r in (s', e, a.valid, Appended-unread s bs s' v a)

-- A value that is written to an array with nothing unread is read back, and nothing stays unread.
pub read_back :
    {A : Type 0} (w : ByteArray → Outcome ByteArray) (m : Reader A) (a : A) (bs : List ℕ)
    → Writes w bs
    → Reads m a bs
    → (s : ByteArray) → IsValid s
    → HasRoom s (length bs)
    → unread s ≡ []
    → (s'' : ByteArray) × ((w s >>= m) ≡ ok (a, s'')) × IsValid s'' × (unread s'' ≡ [])
read_back w m a bs hw hm s v r e =
    let (s', ew, v', u') = hw s v r in
    let (s'', er, v'', u'') = hm s' [] v' (u' ∙ ap (λ zs. zs ++ bs) e ∙ sym (append-nil bs)) in
    (s'', ap (λ o. o >>= m) ew ∙ er, v'', u'')

pub >>=-map :
    {A B : Type 0} (o : Outcome ByteArray) (m : Reader A) (f : A → B) (a : A) (s' : ByteArray)
    → (o >>= m) ≡ ok (a, s')
    → (o >>= map_reader f m) ≡ ok (f a, s')
>>=-map (ok s) m f a s' e = rw e
>>=-map (thrown x) m f a s' e = cc
>>=-map fault m f a s' e = cc
>>=-map stuck m f a s' e = cc
