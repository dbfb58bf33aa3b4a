-- ===== src/Hogwarts/Session/Framing.antt =====
-- The lines of HW6/hogwarts.c, however TCP cuts the stream.
use mathlib.Core.List.{append_assoc, append-nil}
use system_programming_homew.Prelude.{
  ℕ, zero, suc, ◌+◌, ◌≤◌, ◌<◌, ◌≡◌, refl, sym, ap, ◌∙◌, Bool, true, false, ◌==◌, leb, ◌⊎◌, inl, inr,
  List, [], ◌∷◌, ◌++◌, arith, Str, codes, none, some, get_elem?, get_elem?-set_self,
  lt-of-get_elem?, length, length-append, set, All, Bool-cases,
}
use system_programming_homew.Hogwarts.State.{Client, Server, Event}
use system_programming_homew.Hogwarts.Wire.{max_line}
use system_programming_homew.Hogwarts.Handlers.{reply, update_client}
use system_programming_homew.Hogwarts.Session.{
  Handled, Framed, keep, too_long, line, frame, take_frame, process_command, prepend, feed_byte,
  feed_client_data,
}

-- Feed the second piece, unless the first has ended the session.
abbrev pub then_feed : ℕ → ℕ → Str → Handled → Handled
then_feed now i buf h = elim h.gone [
  | true ↦ h
  | false ↦ prepend h.events (feed_client_data now h.server i buf)
]

then_feed-prepend :
    (now i : ℕ) (buf : Str) (events : List Event) (h : Handled)
    → then_feed now i buf (prepend events h) ≡ prepend events (then_feed now i buf h)
then_feed-prepend now i buf events h =
    ground (arith, append_assoc events h.events (feed_client_data now h.server i buf).events)

feed-append :
    (now : ℕ) (s : Server) (i : ℕ) (xs ys : Str)
    → feed_client_data now s i (xs ++ ys) ≡ then_feed now i ys (feed_client_data now s i xs)
unfolding feed_client_data
feed-append now s i [] ys = refl
feed-append now s i (x ∷ xs) ys =
    let h = feed_byte now s i x in
    ground (
      arith,
      feed-append now h.server i xs ys,
      then_feed-prepend now i ys h.events (feed_client_data now h.server i xs),
    )

set-set : {A : Type 0} (xs : List A) (i : ℕ) (v w : A) → set (set xs i v) i w ≡ set xs i w
set-set [] i v w = refl
set-set (x ∷ xs) zero v w = refl
set-set (x ∷ xs) (suc i) v w = ap (◌∷◌ x) (set-set xs i v w)

-- A byte whose frame is known, and the bytes behind it.
feed-frame :
    (now : ℕ) (s : Server) (i x : ℕ) (rest : Str) (c : Client) (f : Framed)
    → get_elem? s.clients i ≡ some c
    → frame c x ≡ f
    → feed_client_data now s i (x ∷ rest) ≡ then_feed now i rest (take_frame now s i f)
unfolding feed_client_data feed_byte
feed-frame now s i x rest c f at e =
    ap
      (λ o. then_feed now i rest (elim o [
        | none ↦ record { server = s; events = []; gone = false }
        | some c' ↦ take_frame now s i (frame c' x)
      ]))
      at
    ∙ ap (λ f'. then_feed now i rest (take_frame now s i f')) e

then_feed-nothing : (now i : ℕ) (h : Handled) → then_feed now i [] h ≡ h
unfolding feed_client_data
then_feed-nothing now i h = go h.server h.events h.gone
  where
    go :
        (s : Server) (events : List Event) (gone : Bool)
        → then_feed now i [] (record { server = s; events = events; gone = gone })
          ≡ record { server = s; events = events; gone = gone }
    go s events true = refl
    go s events false =
        ap (λ es. record { server = s; events = es; gone = false }) (append-nil events)

abbrev IsPlain : ℕ → Type 0
IsPlain ch = (ch == 10) ≡ false

frame-end :
    (c : Client)
    → c.discard_long_line ≡ false
    → frame c 10 ≡ line (record c { line_buf = [] }) c.line_buf
unfolding frame
frame-end c d = rw d refl

frame-keep :
    (c : Client) (x : ℕ)
    → c.discard_long_line ≡ false
    → IsPlain x
    → length c.line_buf < max_line
    → frame c x ≡ keep (record c { line_buf = c.line_buf ++ x ∷ [] })
unfolding frame
frame-keep c x d p lt =
    let e : leb max_line (length c.line_buf) ≡ false = ground arith in rw (d, p, e) refl

frame-long :
    (c : Client) (x : ℕ)
    → c.discard_long_line ≡ false
    → IsPlain x
    → max_line ≤ length c.line_buf
    → frame c x ≡ too_long (record c { discard_long_line = true; line_buf = [] })
unfolding frame
frame-long c x d p le =
    let e : leb max_line (length c.line_buf) ≡ true = ground arith in rw (d, p, e) refl

abbrev waiting_client : Client → Client
waiting_client c = record c { discard_long_line = false; line_buf = [] }

module _ (now i : ℕ) where
  kept_client :
      (s : Server) (c c' : Client)
      → get_elem? s.clients i ≡ some c
      → get_elem? (update_client s i c').clients i ≡ some c'
  kept_client s c c' at = get_elem?-set_self s.clients i c' (lt-of-get_elem? s.clients i c at)

  update_twice :
      (s : Server) (c c' : Client) → update_client (update_client s i c) i c' ≡ update_client s i c'
  update_twice s c c' = ap (λ cs. record s { clients = cs }) (set-set s.clients i c c')

  -- The rest of a line that is too long, up to its end.
  feed-dropped :
      (s : Server) (c : Client) (text : Str)
      → get_elem? s.clients i ≡ some c
      → c.discard_long_line ≡ true
      → All IsPlain text
      → feed_client_data now s i (text ++ 10 ∷ [])
        ≡ record { server = update_client s i (waiting_client c); events = []; gone = false }
  unfolding frame take_frame
  feed-dropped s c [] at d plain =
      feed-frame now s i 10 [] c (keep (waiting_client c)) at (rw d refl)
      ∙ then_feed-nothing now i (take_frame now s i (keep (waiting_client c)))
  feed-dropped s c (x ∷ text) at d plain =
      feed-frame now s i x (text ++ 10 ∷ []) c (keep c) at (rw (d, plain.0) refl)
      ∙ ap (λ h. prepend [] h)
          (feed-dropped (update_client s i c) c text (kept_client s c c at) d plain.1)
      ∙ ap (λ s'. record { server = s'; events = []; gone = false })
          (update_twice s c (waiting_client c))

  feed-short :
      (s : Server) (c : Client) (text : Str)
      → get_elem? s.clients i ≡ some c
      → c.discard_long_line ≡ false
      → All IsPlain text
      → length c.line_buf + length text ≤ max_line
      → let c' = record c { line_buf = [] } in
        feed_client_data now s i (text ++ 10 ∷ [])
        ≡ process_command now (update_client s i c') i c' (c.line_buf ++ text)
  unfolding take_frame
  feed-short s c [] at d plain le =
      let c' = record c { line_buf = [] } in
      feed-frame now s i 10 [] c (line c' c.line_buf) at (frame-end c d)
      ∙ then_feed-nothing now i (process_command now (update_client s i c') i c' c.line_buf)
      ∙ ap (process_command now (update_client s i c') i c') (sym (append-nil c.line_buf))
  feed-short s c (x ∷ text) at d plain le =
      let c' = record c { line_buf = [] } in
      let c1 = record c { line_buf = c.line_buf ++ x ∷ [] } in
      feed-frame now s i x (text ++ 10 ∷ []) c (keep c1) at (frame-keep c x d plain.0 (omega arith))
      ∙ ap (λ h. prepend [] h)
          (feed-short (update_client s i c1) c1 text (kept_client s c c1 at) d plain.1
            (omega (arith, length-append c.line_buf (x ∷ []))))
      ∙ ap (λ s'. process_command now s' i c' ((c.line_buf ++ x ∷ []) ++ text))
          (update_twice s c1 c')
      ∙ ap (process_command now (update_client s i c') i c') (append_assoc c.line_buf (x ∷ []) text)

  feed-long :
      (s : Server) (c : Client) (text : Str)
      → get_elem? s.clients i ≡ some c
      → c.discard_long_line ≡ false
      → All IsPlain text
      → length c.line_buf ≤ max_line
      → max_line < length c.line_buf + length text
      → feed_client_data now s i (text ++ 10 ∷ []) ≡ record {
        server = update_client s i (waiting_client c);
        events = reply c (codes "ERR TOOLONG");
        gone = false;
      }
  unfolding take_frame
  feed-long s c [] at d plain le lt = absurd (omega arith)
  feed-long s c (x ∷ text) at d plain le lt = elim (Bool-cases (leb max_line (length c.line_buf))) [
    | inl full ↦
        let c1 = record c { discard_long_line = true; line_buf = [] } in
        feed-frame now s i x (text ++ 10 ∷ []) c (too_long c1) at
          (frame-long c x d plain.0 (ground arith))
        ∙ ap (λ h. prepend (reply c (codes "ERR TOOLONG")) h)
            (feed-dropped (update_client s i c1) c1 text (kept_client s c c1 at) refl plain.1)
        ∙ ap
            (λ es. record {
              server = update_client (update_client s i c1) i (waiting_client c);
              events = es;
              gone = false;
            })
            (append-nil (reply c (codes "ERR TOOLONG")))
        ∙ ap (λ s'. record { server = s'; events = reply c (codes "ERR TOOLONG"); gone = false })
            (update_twice s c1 (waiting_client c))
    | inr room ↦
        let c1 = record c { line_buf = c.line_buf ++ x ∷ [] } in
        let grown = length-append c.line_buf (x ∷ []) in
        feed-frame now s i x (text ++ 10 ∷ []) c (keep c1) at
          (frame-keep c x d plain.0 (ground arith))
        ∙ ap (λ h. prepend [] h)
            (feed-long (update_client s i c1) c1 text (kept_client s c c1 at) d plain.1
              (ground (arith, grown)) (omega (arith, grown)))
        ∙ ap (λ s'. record { server = s'; events = reply c (codes "ERR TOOLONG"); gone = false })
            (update_twice s c1 (waiting_client c))
  ]

  -- A connected client has a part of a line in its buffer, which is not longer than MAX_LINE and not
  -- being discarded. The rest of the line comes in two pieces, without a line end but at its end. If
  -- the whole line is not longer than MAX_LINE, the effect is that of its command, with the buffer
  -- empty. Otherwise no command runs: the one reply is "ERR TOOLONG", and the buffer is empty again.
  pub feed-line :
      (s : Server) (c : Client) (xs ys : Str)
      → get_elem? s.clients i ≡ some c
      → c.discard_long_line ≡ false
      → length c.line_buf ≤ max_line
      → All IsPlain (xs ++ ys)
      → let c' = record c { line_buf = [] } in
        let h = then_feed now i (ys ++ 10 ∷ []) (feed_client_data now s i xs) in
        ((length c.line_buf + length (xs ++ ys) ≤ max_line)
          × (h ≡ process_command now (update_client s i c') i c' (c.line_buf ++ (xs ++ ys))))
        ⊎ ((max_line < length c.line_buf + length (xs ++ ys))
            × (h ≡ record {
              server = update_client s i (record c { discard_long_line = false; line_buf = [] });
              events = reply c (codes "ERR TOOLONG");
              gone = false;
            }))
  feed-line s c xs ys at d le plain =
      let joined =
        sym (feed-append now s i xs (ys ++ 10 ∷ []))
        ∙ ap (feed_client_data now s i) (sym (append_assoc xs ys (10 ∷ []))) in
      elim (Bool-cases (leb (length c.line_buf + length (xs ++ ys)) max_line)) [
        | inl short ↦
            inl (ground arith, joined ∙ feed-short s c (xs ++ ys) at d plain (ground arith))
        | inr long ↦
            inr (ground arith, joined ∙ feed-long s c (xs ++ ys) at d plain le (ground arith))
      ]
