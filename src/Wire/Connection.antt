-- ===== src/Wire/Connection.antt =====
-- The read side of a connection in src/server.cpp: what `recv` has brought is parsed, each frame is
-- handled, and the replies are put behind those that wait to be sent.
use vault_vk.Common.{
  ◌≡◌, refl, sym, ap, subst, ◌∙◌, true, List, [], ◌∷◌, ◌++◌, append-nil, append_assoc,
  if◌then◌else◌, All,
}
use vault_vk.Text.{codes}
use vault_vk.Wire.Bytes.{Bytes}
use vault_vk.Wire.Frames.{Frame, Parsed, try_parse_frames}
use vault_vk.Wire.Frames.Stream.{
  parsed, pushes, nothing_more, parsed-append, parsed-good, parsed-left, try_parse_frames-good,
}
use vault_vk.Wire.Frames.RoundTrip.{encode_all, Fits, parsed-encode_all}
use vault_vk.Wire.Replies.{encode_error}

-- The engine that all connections share, and the two buffers of one.
pub record Connection (E : Type 0) : Type 0 where
  pub engine : E
  pub rbuf : Bytes
  pub wbuf : Bytes

module _ {E : Type 0} (handle_frame : Frame → E → E × Bytes) where
  abbrev pub handled : Frame → Connection E → Connection E
  handled f c =
      let (engine, resp) = handle_frame f c.engine in
      record c { engine = engine; wbuf = c.wbuf ++ resp }

  abbrev pub handle_all : List Frame → Connection E → Connection E
  handle_all [] c = c
  handle_all (f ∷ fs) c = handle_all fs (handled f c)

  -- The bytes that one round of `recv` brings, and what follows.
  unfoldable pub on_readable : Bytes → Connection E → Connection E
  unfolding encode_error
  on_readable bytes c =
      let r = try_parse_frames (c.rbuf ++ bytes) in
      let d : Connection E = record c { rbuf = r.read_buffer } in
      if r.good
      then handle_all r.out_frames d
      else record d { wbuf = c.wbuf ++ encode_error 400 (codes "payload too large") }

  abbrev pub receive : List Bytes → Connection E → Connection E
  receive [] c = c
  receive (bytes ∷ more) c = receive more (on_readable bytes c)

  abbrev pub joined : List Bytes → Bytes
  joined [] = []
  joined (bytes ∷ more) = bytes ++ joined more

  handle_all-append :
      (fs gs : List Frame) (c : Connection E)
      → handle_all (fs ++ gs) c ≡ handle_all gs (handle_all fs c)
  handle_all-append [] gs c = refl
  handle_all-append (f ∷ fs) gs c = handle_all-append fs gs (handled f c)

  -- What is left in the buffer is not looked at by the handlers.
  handle_all-rbuf :
      (fs : List Frame) (c : Connection E) (b : Bytes)
      → handle_all fs (record c { rbuf = b }) ≡ record (handle_all fs c) { rbuf = b }
  handle_all-rbuf [] c b = refl
  handle_all-rbuf (f ∷ fs) c b = handle_all-rbuf fs (handled f c) b

  on_readable_good :
      (bytes : Bytes) (c : Connection E)
      → (parsed (c.rbuf ++ bytes)).good ≡ true
      → on_readable bytes c ≡ record (handle_all (parsed (c.rbuf ++ bytes)).out_frames c) {
        rbuf = (parsed (c.rbuf ++ bytes)).read_buffer;
      }
  unfolding on_readable
  on_readable_good bytes c g =
      let e = try_parse_frames-good (c.rbuf ++ bytes) g in
      rw (e, g, if◌then◌else◌) (handle_all-rbuf (parsed (c.rbuf ++ bytes)).out_frames c _)

  -- The connection after a stream that is good as a whole.
  abbrev pub served : Parsed → Connection E → Connection E
  served r c = record (handle_all r.out_frames c) { rbuf = r.read_buffer }

  served-pushes :
      (fs : List Frame) (p : Parsed) (c : Connection E) (b : Bytes)
      → served p (record (handle_all fs c) { rbuf = b }) ≡ served (pushes fs p) c
  served-pushes fs p c b =
      let left : Connection E → Connection E = λ d. record d { rbuf = p.read_buffer } in
      ap left (handle_all-rbuf p.out_frames (handle_all fs c) b)
      ∙ sym (ap left (handle_all-append fs p.out_frames c))

  receive-served :
      (chunks : List Bytes) (c : Connection E)
      → parsed c.rbuf ≡ nothing_more c.rbuf
      → (parsed (c.rbuf ++ joined chunks)).good ≡ true
      → receive chunks c ≡ served (parsed (c.rbuf ++ joined chunks)) c
  receive-served [] c left g = sym (ap (λ r. served r c) (ap parsed (append-nil c.rbuf) ∙ left))
  receive-served (bytes ∷ more) c left g =
      let front = c.rbuf ++ bytes in
      let whole : c.rbuf ++ (bytes ++ joined more) ≡ front ++ joined more =
        sym (append_assoc c.rbuf bytes (joined more)) in
      let good : (parsed front).good ≡ true =
        parsed-good front (joined more) (subst (λ b. (parsed b).good ≡ true) whole g) in
      let r = parsed front in
      let split = ap parsed whole ∙ parsed-append front (joined more) good in
      let d = served r c in
      ap (receive more) (on_readable_good bytes c good)
      ∙ receive-served more d (parsed-left front good) (subst (λ p. p.good ≡ true) split g)
      ∙ served-pushes r.out_frames (parsed (r.read_buffer ++ joined more)) c r.read_buffer
      ∙ sym (ap (λ p. served p c) split)

  -- How `recv` cuts the stream does not matter: when the chunks together are the frames `fs`, each
  -- with a payload within the limit, a connection with an empty buffer handles exactly these frames,
  -- in order, and its buffer is empty again.
  pub receive-encode_all :
      (fs : List Frame) (chunks : List Bytes) (c : Connection E)
      → All Fits fs
      → c.rbuf ≡ []
      → joined chunks ≡ encode_all fs
      → receive chunks c ≡ record (handle_all fs c) { rbuf = [] }
  receive-encode_all fs chunks c fits empty whole =
      let start : c.rbuf ++ joined chunks ≡ encode_all fs =
        ap (λ b. b ++ joined chunks) empty ∙ whole in
      let all = ap parsed start ∙ parsed-encode_all fs fits in
      receive-served chunks c
        (ap parsed empty ∙ parsed-encode_all [] tt ∙ sym (ap nothing_more empty))
        (ap (λ p. p.good) all)
      ∙ ap (λ p. served p c) all
