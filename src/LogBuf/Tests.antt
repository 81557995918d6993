-- ===== src/LogBuf/Tests.antt =====
-- Runs of the log buffer, and its theorems at concrete inputs.
use tunnel_manager.Prelude.{◌≡◌, refl, none, some, external, List, [], ◌∷◌, ◌++◌, last}
use tunnel_manager.Prelude.Text.{Bytes, codes}
use tunnel_manager.LogBuf.{new_buffer, writes}
use tunnel_manager.LogBuf.Stream.{Written, split, stream, flushed_all, writes_tail}

abbrev newline : Bytes
newline = 10 ∷ []

-- "a\nb", then a write that fails, then "c\nd\ne".
abbrev chunks : List Written
chunks =
    (codes "a" ++ newline ++ codes "b", none)
    ∷ ((codes "lost", some (external (codes "no space left on device"), codes "lo"))
        ∷ ((codes "c" ++ newline ++ codes "d" ++ newline ++ codes "e", none) ∷ []))

two_kept : (writes (new_buffer [] 2) chunks).lines ≡ codes "bc" ∷ codes "d" ∷ []
unfolding writes
two_kept = refl

writes_tail_example :
    let b = writes (new_buffer (codes "x") 2) chunks in
    (b.lines ≡ last 2 (split [] (stream chunks)).0)
    × (b.partial ≡ (split [] (stream chunks)).1)
    × (b.file ≡ codes "x" ++ flushed_all chunks)
writes_tail_example = writes_tail (codes "x") 2 chunks
