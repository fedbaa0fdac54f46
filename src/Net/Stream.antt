-- ===== src/Net/Stream.antt =====
-- `SocketStream` (spike/net/SocketStream.cpp): what it does with a `ByteArray` and a socket. What the
-- socket does with the bytes that it is given is a parameter: how many it took, or a negative number.
use lim_webserver.Base.{
  ℕ, zero, suc, ◌≡◌, ◌≢◌, ◌≤◌, sym, [], ◌∷◌, ◌<◌, refl, ap, ◌∙◌, arith, Bool, true, false,
  if◌then◌else◌, List, length, take, length-take,
}
use lim_webserver.Base.Words.{ℤ, pos, negsuc}
use lim_webserver.Base.Outcome.{Outcome, ok, fault, ◌>>=◌}
use lim_webserver.ByteArray.Chain.{Iovec}
use lim_webserver.ByteArray.Chain.Scan.{gather_all}
use lim_webserver.ByteArray.Store.{ByteArray, get_read_buffers, add_read_position}
use lim_webserver.ByteArray.Store.Valid.{IsValid, unread}
use lim_webserver.ByteArray.Store.Reads.{Taken}
use lim_webserver.ByteArray.Store.Views.{get_read_buffers-unread, add_read_position-Taken}

-- What follows `m_socket->send` in `send` of an array.
pub taken_by_socket : ByteArray → ℤ → Outcome (ℤ × ByteArray)
taken_by_socket s (pos zero) = ok (pos 0, s)
taken_by_socket s (pos (suc k)) = add_read_position (suc k) s >>= λ s'. ok (pos (suc k), s')
taken_by_socket s (negsuc k) = ok (negsuc k, s)

module _ (socket_send : List ℕ → ℤ) where
  -- `send` of a text: `rt` is what the socket returned.
  pub send_text : Bool → List ℕ → ℤ
  send_text connected text = if connected then socket_send text else negsuc 0

  -- `send` of an array. `&iovs[0]` of an empty vector is undefined.
  pub send_array : Bool → ℕ → ByteArray → Outcome (ℤ × ByteArray)
  send_array false len s = ok (negsuc 0, s)
  send_array true len s = get_read_buffers len s >>= λ r. elim r.1 [
    | [] ↦ fault
    | v ∷ vs ↦ taken_by_socket s (socket_send (gather_all s.nodes (v ∷ vs)))
  ]

-- A socket takes at most the bytes that it is given.
abbrev pub TakesAtMost : ℕ → ℤ → Type 0
TakesAtMost n (pos k) = k ≤ n
TakesAtMost n (negsuc k) = Unit {0}

-- The socket's answer tells what is left in the array.
abbrev pub Sent : ByteArray → ℤ → ByteArray → Type 0
Sent s (pos zero) s' = s' ≡ s
Sent s (pos (suc k)) s' = Taken s (suc k) s'
Sent s (negsuc k) s' = s' ≡ s

taken_by_socket-Sent :
    (s : ByteArray) (rt : ℤ)
    → IsValid s
    → s.read_pos.pos < s.capacity
    → TakesAtMost (length (unread s)) rt
    → (s' : ByteArray) × (taken_by_socket s rt ≡ ok (rt, s')) × Sent s rt s'
unfolding taken_by_socket
taken_by_socket-Sent s (pos zero) v h t = (s, refl, refl)
taken_by_socket-Sent s (pos (suc k)) v h t =
    let (s', e, m) = add_read_position-Taken s (suc k) v h t in
    (s', ap (λ r. r >>= λ s'. ok (pos (suc k), s')) e, m)
taken_by_socket-Sent s (negsuc k) v h t = (s, refl, refl)

-- `send` where `getReadBuffers` gives some buffer.
send_array_some :
    (socket_send : List ℕ → ℤ) (len : ℕ) (s : ByteArray) (n : ℕ) (vs : List Iovec)
    → get_read_buffers len s ≡ ok (n, vs)
    → gather_all s.nodes vs ≢ []
    → send_array socket_send true len s ≡ taken_by_socket s (socket_send (gather_all s.nodes vs))
unfolding send_array
send_array_some f len s n [] e some_bytes = absurd (some_bytes refl)
send_array_some f len s n (v ∷ vs) e some_bytes = rw (e, send_array) refl

-- On a valid array whose read position is before the end of the chain, with an unread byte, and with a
-- socket that takes at most the bytes that it is given, `send` of at least one byte by a connected stream
-- offers the socket the first `len` unread bytes, or all if there are fewer, and returns what the socket
-- returned; the bytes that the socket took are read, and the array is unchanged when it took none or
-- failed.
pub send_array-Sent :
    (socket_send : List ℕ → ℤ) (len : ℕ) (s : ByteArray)
    → ((bs : List ℕ) → TakesAtMost (length bs) (socket_send bs))
    → IsValid s
    → s.read_pos.pos < s.capacity
    → 0 < len
    → 0 < length (unread s)
    → (s' : ByteArray) × (send_array socket_send true len s
        ≡ ok (socket_send (take len (unread s)), s'))
      × Sent s (socket_send (take len (unread s))) s'
send_array-Sent f len s t v h some_len some_bytes =
    let (vs, n, e, g, _) = get_read_buffers-unread s len v h in
    let fits = fewer (f (take len (unread s))) (unread s) len (t (take len (unread s))) in
    let (s', e', m) = taken_by_socket-Sent s (f (take len (unread s))) v h fits in
    (
      s',
      send_array_some f len s n vs e (λ x. take-some len (unread s) some_len some_bytes (sym g ∙ x))
          ∙ ap (λ bs. taken_by_socket s (f bs)) g
          ∙ e',
      m,
    )
  where
    take-some : (n : ℕ) (bs : List ℕ) → 0 < n → 0 < length bs → take n bs ≢ []
    take-some zero bs p q e = omega (arith, p)
    take-some (suc n) [] p q e = omega (arith, q)
    take-some (suc n) (b ∷ bs) p q e = cc e

    fewer :
        (rt : ℤ) (bs : List ℕ) (n : ℕ)
        → TakesAtMost (length (take n bs)) rt
        → TakesAtMost (length bs) rt
    fewer (pos k) bs n h = omega (arith, length-take n bs)
    fewer (negsuc k) bs n h = tt
