-- ===== src/Text/Token.antt =====
-- The token that a daemon spelling is looked up by: `normaliseDaemonCode` of
-- packages/registry/src/errors.ts, which handlers/invocation.ts, handlers/cancel.ts and
-- handlers/task-projection.ts repeat as `normaliseToken`.
pub mod Shape
use mx_loom.Common.{
  ℕ, ◌+◌, Bool, true, false, ◌&&◌, ◌||◌, List, [], ◌∷◌, ◌++◌, ◌==◌, leb, if◌then◌else◌,
}
use mx_loom.Text.{Text}

-- `toLowerCase` of one code unit. Beside A-Z, two characters have an ASCII letter in their lower
-- case: the Kelvin sign, and the dotted I, which becomes `i` and a combining dot. The other
-- capitals become other characters outside a-z0-9, which the next replacement treats alike: they
-- are kept here.
lower_unit : ℕ → Text
lower_unit c =
    if leb b'A' c && leb c b'Z'
    then (c + 32) ∷ []
    else if c == 0x212a
    then b'k' ∷ []
    else if c == 0x130
    then b'i' ∷ 0x307 ∷ []
    else c ∷ []

to_lower_case : Text → Text
to_lower_case [] = []
to_lower_case (c ∷ s) = lower_unit c ++ to_lower_case s

-- The class [a-z0-9].
unfoldable pub is_alnum : ℕ → Bool
is_alnum c = (leb b'a' c && leb c b'z') || (leb b'0' c && leb c b'9')

-- `.replace(/[^a-z0-9]+/g, '_')`; the flag says that the current run has its underscore.
collapse : Bool → Text → Text
collapse run [] = []
collapse run (c ∷ s) =
    let kept = c ∷ collapse false s in
    let skipped = collapse true s in
    if is_alnum c then kept else if run then skipped else b'_' ∷ skipped

-- `.replace(/^_+|_+$/g, '')`, at the start and at the end.
strip_start : Text → Text
strip_start [] = []
strip_start (c ∷ s) = if c == b'_' then strip_start s else c ∷ s

cons_unless_edge : ℕ → Text → Text
cons_unless_edge c [] = if c == b'_' then [] else c ∷ []
cons_unless_edge c (d ∷ s) = c ∷ d ∷ s

strip_end : Text → Text
unfolding cons_unless_edge
strip_end [] = []
strip_end (c ∷ s) = cons_unless_edge c (strip_end s)

unfoldable pub normalise_token : Text → Text
unfolding lower_unit to_lower_case is_alnum collapse strip_start strip_end
normalise_token raw = strip_end (strip_start (collapse false (to_lower_case raw)))
