-- ===== src/LogBuf/Stream.antt =====
-- What the buffer of internal/pkg/logbuf holds after a run of writes.
use tunnel_manager.Prelude.{
  ℕ, zero, suc, ◌+◌, ◌-◌, ◌≤◌, ◌<◌, ◌≡◌, refl, ap, sym, ◌∙◌, inl, inr, Bool, true, false, List, [],
  ◌∷◌, ◌++◌, Option, none, some, ◌==◌, ltb, if◌then◌else◌, length, drop, last, length-append,
  length-drop, drop-drop, drop-nil, All, All-append, Option-cases, Bool-cases, arith, Error,
}
use mathlib.Core.Path.{subst}
use mathlib.Core.List.{append_assoc, append-nil}
use tunnel_manager.Prelude.Text.{Bytes}
use tunnel_manager.LogBuf.{
  Buffer, new_buffer, cut_line, push_line, Scanned, drain_lines, accept, write, writes,
}

-- The specification: the complete lines of a stream, and what follows its last newline.
abbrev pub split : Bytes → Bytes → List Bytes × Bytes
split cur [] = ([], cur)
split cur (c ∷ s) =
    if c == 10 then (cur ∷ (split [] s).0, (split [] s).1) else split (cur ++ c ∷ []) s

abbrev pub Written : Type 0
Written = Bytes × Option (Error × Bytes)

-- The bytes of the writes that succeed, one after the other.
abbrev pub taken : Written → Bytes
taken (p, none) = p
taken (p, some _) = []

abbrev pub stream : List Written → Bytes
stream [] = []
stream (w ∷ ws) = taken w ++ stream ws

-- The bytes that reach the file: those of the writes that succeed, and what the others left there.
abbrev pub on_disk : Written → Bytes
on_disk (p, none) = p
on_disk (p, some (e, flushed)) = flushed

abbrev pub flushed_all : List Written → Bytes
flushed_all [] = []
flushed_all (w ∷ ws) = on_disk w ++ flushed_all ws

drop-append {ℓ} :
    {A : Type ℓ} (n : ℕ) (xs ys : List A) → n ≤ length xs → drop n xs ++ ys ≡ drop n (xs ++ ys)
drop-append zero xs ys h = refl
drop-append (suc n) [] ys h = absurd (omega arith)
drop-append (suc n) (x ∷ xs) ys h = drop-append n xs ys (omega arith)

-- Keeping the last `n` of a prefix loses nothing of the last `n` of the whole.
last-append-last {ℓ} :
    {A : Type ℓ} (n : ℕ) (xs ys : List A) → last n (last n xs ++ ys) ≡ last n (xs ++ ys)
last-append-last n xs ys =
    let k : ℕ = length xs - n in
    rw (drop-append k xs ys (omega arith)) (
      rw (length-drop k (xs ++ ys), length-append xs ys)
        (drop-drop (length xs + length ys - k - n) k (xs ++ ys)
          ∙ ap (λ m. drop m (xs ++ ys)) (omega arith)))

split-append :
    (cur a b : Bytes)
    → split cur (a ++ b)
      ≡ ((split cur a).0 ++ (split (split cur a).1 b).0, (split (split cur a).1 b).1)
split-append cur [] b = refl
split-append cur (c ∷ a) b = elim (Bool-cases (c == 10)) [
  | inl e ↦ rw e (rw (split-append [] a b))
  | inr e ↦ rw e (split-append (cur ++ c ∷ []) a b)
]

abbrev pub NoNewline : Bytes → Type 0
NoNewline = All (λ c. (c == 10) ≡ false)

split-NoNewline : (cur q s : Bytes) → NoNewline q → split cur (q ++ s) ≡ split (cur ++ q) s
split-NoNewline cur [] s h = rw (append-nil cur)
split-NoNewline cur (c ∷ q) s (e, h) =
    rw e (split-NoNewline (cur ++ c ∷ []) q s h ∙ ap (λ t. split t s) (append_assoc cur (c ∷ []) q))

NoNewline-split : (cur s : Bytes) → NoNewline cur → NoNewline (split cur s).1
NoNewline-split cur [] h = h
NoNewline-split cur (c ∷ s) h = elim (Bool-cases (c == 10)) [
  | inl e ↦ rw e (NoNewline-split [] s tt)
  | inr e ↦ rw e (NoNewline-split (cur ++ c ∷ []) s (All-append _ cur (c ∷ []) h (e, tt)))
]

-- What a cut says of the text: there is no newline, or the line ends at the first one.
abbrev Cut : Bytes → Option (Bytes × Bytes) → Type 0
Cut p none = NoNewline p
Cut p (some (line, after)) = NoNewline line × (p ≡ line ++ 10 ∷ after) × (length after < length p)

Cut-cons :
    (c : ℕ) (s : Bytes) (o : Option (Bytes × Bytes))
    → (c == 10) ≡ false
    → Cut s o
    → Cut (c ∷ s) (elim o [ none ↦ none | some (line, after) ↦ some (c ∷ line, after) ])
Cut-cons c s none e h = (e, h)
Cut-cons c s (some (line, after)) e (h, same, shorter) = ((e, h), ap (λ t. c ∷ t) same, omega arith)

cut_line-Cut : (p : Bytes) → Cut p (cut_line p)
unfolding cut_line
cut_line-Cut [] = tt
cut_line-Cut (c ∷ s) = elim (Bool-cases (c == 10)) [
  | inl e ↦ rw e (tt, ground arith, omega arith)
  | inr e ↦ rw e (Cut-cons c s (cut_line s) e (cut_line-Cut s))
]

push_line-last :
    (capacity : ℕ) (lines : List Bytes) (line : Bytes)
    → push_line capacity lines line ≡ last capacity (lines ++ line ∷ [])
unfolding push_line
push_line-last capacity lines line =
    elim (Bool-cases (ltb capacity (length (lines ++ line ∷ [])))) [
      | inl e ↦ rw e
      | inr e ↦
          let none_over : length (lines ++ line ∷ []) - capacity ≡ 0 = ground arith in
          rw (e, none_over)
    ]

length-last : (n : ℕ) (xs : List Bytes) → length (last n xs) ≤ n
length-last n xs = omega (arith, length-drop (length xs - n) xs)

last-short : (n : ℕ) (xs : List Bytes) → length xs ≤ n → last n xs ≡ xs
last-short n xs h = let none_over : length xs - n ≡ 0 = omega arith in rw none_over

-- What the loop of `Write` is to leave.
record IsDrained (capacity : ℕ) (lines : List Bytes) (text : Bytes) (s : Scanned) : Type 0 where
  kept : s.lines ≡ last capacity (lines ++ (split [] text).0)
  rest : s.partial ≡ (split [] text).1

split-line :
    (line after : Bytes)
    → NoNewline line
    → split [] (line ++ 10 ∷ after) ≡ (line ∷ (split [] after).0, (split [] after).1)
split-line line after h = split-NoNewline [] line (10 ∷ after) h

split-rest : (p : Bytes) → NoNewline p → split [] p ≡ ([], p)
split-rest p h = ap (split []) (sym (append-nil p)) ∙ split-NoNewline [] p [] h

last-push_line :
    (capacity : ℕ) (lines : List Bytes) (line : Bytes) (more : List Bytes)
    → last capacity (push_line capacity lines line ++ more) ≡ last capacity (lines ++ line ∷ more)
last-push_line capacity lines line more = rw (push_line-last capacity lines line) (
    last-append-last capacity (lines ++ line ∷ []) more
    ∙ ap (last capacity) (append_assoc lines (line ∷ []) more))

-- With more fuel than bytes, the loop ends, and leaves the last lines and the unfinished one.
drain_lines-IsDrained :
    (fuel capacity : ℕ) (lines : List Bytes) (text : Bytes) (completed : Bool)
    → length text < fuel
    → length lines ≤ capacity
    → IsDrained capacity lines text (drain_lines fuel capacity lines text completed)
unfolding drain_lines
drain_lines-IsDrained zero capacity lines text completed h k = absurd (omega arith)
drain_lines-IsDrained (suc fuel) capacity lines text completed h k =
    elim (Option-cases (cut_line text)) [
      | inl e ↦
          let plain : NoNewline text = subst (Cut text) e (cut_line-Cut text) in
          rw (e, drain_lines)
            (record {
              kept =
                  rw (split-rest text plain)
                    (rw (append-nil lines) (sym (last-short capacity lines k)));
              rest = rw (split-rest text plain);
            })
      | inr ((line, after), e) ↦
          let cut : Cut text (some (line, after)) = subst (Cut text) e (cut_line-Cut text) in
          let halves = ap (split []) cut.1 ∙ split-line line after cut.0 in
          let ih =
            drain_lines-IsDrained fuel capacity (push_line capacity lines line) after true
              (omega arith) (rw (push_line-last capacity lines line) (length-last capacity _)) in
          rw (e, drain_lines)
            (record {
              kept =
                  ih.kept
                  ∙ (last-push_line capacity lines line (split [] after).0
                      ∙ ap (λ (x : List Bytes × Bytes). last capacity (lines ++ x.0)) (sym halves));
              rest = ih.rest ∙ ap (λ (x : List Bytes × Bytes). x.1) (sym halves);
            })
    ]

-- The buffer after the stream `s`: its last complete lines and its unfinished one.
pub record IsTail (s : Bytes) (b : Buffer) : Type 0 where
  pub kept : b.lines ≡ last b.capacity (split [] s).0
  pub rest : b.partial ≡ (split [] s).1

write-IsTail : (s p : Bytes) (b : Buffer) → IsTail s b → IsTail (s ++ p) (write b p none).0
unfolding write
write-IsTail s p b t =
    let plain : NoNewline b.partial = rw t.rest (NoNewline-split [] s tt) in
    let text : split [] (b.partial ++ p) ≡ split (split [] s).1 p =
      split-NoNewline [] b.partial p plain ∙ ap (λ q. split q p) t.rest in
    let d =
      drain_lines-IsDrained (suc (length (b.partial ++ p))) b.capacity b.lines (b.partial ++ p)
        false (omega arith) (rw t.kept (length-last b.capacity _)) in
    record {
      kept =
          d.kept
          ∙ (rw text (
              rw t.kept (
                last-append-last b.capacity (split [] s).0 _
                ∙ ap (λ (x : List Bytes × Bytes). last b.capacity x.0)
                    (sym (split-append [] s p)))));
      rest = d.rest ∙ (rw text (ap (λ (x : List Bytes × Bytes). x.1) (sym (split-append [] s p))));
    }

writes-IsTail :
    (s : Bytes) (b : Buffer) (ws : List Written)
    → IsTail s b
    → IsTail (s ++ stream ws) (writes b ws)
unfolding writes write
writes-IsTail s b [] t = rw (append-nil s) t
writes-IsTail s b ((p, none) ∷ ws) t =
    rw (← append_assoc s p (stream ws))
      (writes-IsTail (s ++ p) (write b p none).0 ws (write-IsTail s p b t))
writes-IsTail s b ((p, some (e, flushed)) ∷ ws) t =
    writes-IsTail s (record b { file = b.file ++ flushed }) ws
      (record { kept = t.kept; rest = t.rest })

writes-file : (b : Buffer) (ws : List Written) → (writes b ws).file ≡ b.file ++ flushed_all ws
unfolding writes write
writes-file b [] = sym (append-nil b.file)
writes-file b ((p, none) ∷ ws) =
    writes-file (accept b p) ws ∙ append_assoc b.file p (flushed_all ws)
writes-file b ((p, some (e, flushed)) ∷ ws) =
    writes-file (record b { file = b.file ++ flushed }) ws
    ∙ append_assoc b.file flushed (flushed_all ws)

capacity-writes : (b : Buffer) (ws : List Written) → (writes b ws).capacity ≡ b.capacity
unfolding writes write
capacity-writes b [] = refl
capacity-writes b ((p, none) ∷ ws) = capacity-writes (accept b p) ws
capacity-writes b ((p, some (e, flushed)) ∷ ws) =
    capacity-writes (record b { file = b.file ++ flushed }) ws

-- After any run of writes to a new buffer, of which any may fail at the disk, the lines in memory are
-- the last `capacity` complete lines of the stream of those that succeeded, the unfinished line is
-- that stream's, and so neither depends on how it was cut into writes; the file has gained exactly
-- what was written and what the failed writes left.
pub writes_tail :
    (contents : Bytes) (capacity : ℕ) (ws : List Written)
    → let b = writes (new_buffer contents capacity) ws in
      (b.lines ≡ last capacity (split [] (stream ws)).0)
      × (b.partial ≡ (split [] (stream ws)).1)
      × (b.file ≡ contents ++ flushed_all ws)
writes_tail contents capacity ws =
    let b = new_buffer contents capacity in
    let start : IsTail [] b = record { kept = sym (drop-nil (0 - capacity)); rest = refl } in
    let t = writes-IsTail [] b ws start in
    (
      t.kept ∙ ap (λ n. last n (split [] (stream ws)).0) (capacity-writes b ws),
      t.rest,
      writes-file b ws,
    )
