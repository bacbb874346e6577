-- ===== src/Shell.antt =====
-- gtv-cli/src/main.rs: the shell's arguments and its commands `knn` and `delta`. What a command prints is its
-- value. `parse` of an unsigned number is that of the standard library.
pub mod Active
pub mod Seeds
pub mod Search
pub mod Edits
pub mod Startup
mod Tests
use Prim.Native.String.{String, ◌++◌ as append}
use Prim.Native.Char.{Char, code}
use text.Mathlib.Text.{◌==◌ as str_eq}
use gtvdb.Base.{
  ℕ, zero, suc, ◌+◌, ◌-◌, ◌*◌, ◌^◌, ◌≡◌, Bool, true, false, ◌&&◌, Option, none, some, List, [], ◌∷◌,
  length, get_elem?, ltb, leb, ◌==◌, if◌then◌else◌,
}
use gtvdb.Base.Int.{ℤ, pos}
use gtvdb.Base.Filter.{contains}
use gtvdb.Base.Sort.{UnstableSort}
use gtvdb.Error
use gtvdb.Error.{GtvError, Result}
use gtvdb.Table.{EdgeTable, edges_len}
use gtvdb.Flat.{Floats}
use gtvdb.Hnsw
use gtvdb.Hnsw.{Outcome, HnswIndex}
use gtvdb.Hnsw.Search.{search_knn}
use gtvdb.Delta.{DeltaEdge}
use gtvdb.Store.{LsmStore, insert, pending, merged_edges, compact_now}
use gtvdb.Engine.Collections.{split_commas, trim_start, trim_end}

-- `anyhow::Error`: a message, a number that does not parse, or an error of the library.
pub data ShellError : Type 0 where
  message : String → ShellError
  parse_error : ShellError
  core : GtvError → ShellError

-- How a command ends.
pub data Ended {ℓ} (A : Type ℓ) : Type ℓ where
  done : A → Ended A
  failed : ShellError → Ended A
  panicked stuck : Ended A

infixl 5 ◌>>=◌
abbrev pub ◌>>=◌ {ℓ κ} : {A : Type ℓ} {B : Type κ} → Ended A → (A → Ended B) → Ended B
done v >>= next = next v
failed e >>= next = failed e
panicked >>= next = panicked
stuck >>= next = stuck

abbrev pub or_fail {ℓ} : {A : Type ℓ} → ShellError → Option A → Ended A
or_fail e none = failed e
or_fail e (some v) = done v

abbrev pub from_outcome {ℓ} : {A : Type ℓ} → Outcome A → Ended A
from_outcome (Hnsw.returned v) = done v
from_outcome (Hnsw.failed e) = failed (core e)
from_outcome Hnsw.panicked = panicked
from_outcome Hnsw.stuck = stuck

abbrev pub require_arg : List String → ℕ → String → Ended String
require_arg tokens idx usage =
    or_fail (message (append "missing argument; usage: " usage)) (get_elem? tokens idx)

abbrev pub optional_arg : List String → ℕ → Option String
optional_arg tokens idx = get_elem? tokens idx

-- The digits of a number behind those that make `n`.
unfoldable pub digits : ℕ → String → Option ℕ
digits n String.[] = some n
digits n (String.◌∷◌ c s) =
    let d = code c in
    let rest = digits (n * 10 + (d - 48)) s in if leb 48 d && leb d 57 then rest else none

abbrev pub in_u64 : Option ℕ → Option ℕ
in_u64 none = none
in_u64 (some n) = if ltb n (2 ^ 64) then some n else none

-- `parse::<u64>`: an optional plus sign and at least one digit, below 2^64.
unfoldable pub parse_u64 : String → Option ℕ
unfolding digits
parse_u64 String.[] = none
parse_u64 (String.◌∷◌ c String.[]) = in_u64 (digits 0 (String.◌∷◌ c String.[]))
parse_u64 (String.◌∷◌ c (String.◌∷◌ d s)) =
    let rest = String.◌∷◌ d s in
    in_u64 (digits 0 (if code c == 43 then rest else String.◌∷◌ c rest))

-- The tokens behind the flag.
abbrev pub behind_flag : List String → Option (List String)
behind_flag [] = none
behind_flag (t ∷ tokens) =
    let rest = behind_flag tokens in if str_eq t "--mask" then some tokens else rest

unfoldable pub parse_ids : List String → Ended (List ℕ)
unfolding parse_u64 trim_start trim_end
parse_ids [] = done []
parse_ids (s ∷ parts) =
    or_fail (message (append "invalid mask id `" (append s "`")))
      (parse_u64 (trim_end (trim_start s)))
    >>= λ id. parse_ids parts >>= λ ids. done (id ∷ ids)

unfoldable pub parse_mask : List String → Ended (Option (List ℕ))
unfolding parse_ids split_commas
parse_mask tokens = elim (behind_flag tokens) [
  | none ↦ done none
  | some [] ↦ failed (message "usage: knn <node> [k] [--mask a,b,c]")
  | some (raw ∷ _) ↦ parse_ids (split_commas raw) >>= λ ids. done (some ids)
]

-- `(i..i + n).map(|i| allowed.contains(&i))`
abbrev pub mask_from : ℕ → ℕ → List ℕ → List Bool
mask_from i zero allowed = []
mask_from i (suc n) allowed = contains i allowed ∷ mask_from (suc i) n allowed

abbrev pub mask_of : ℕ → Option (List ℕ) → Option (List Bool)
mask_of n none = none
mask_of n (some allowed) = some (mask_from 0 n allowed)

-- `and_then(|s| s.parse::<usize>().ok()).unwrap_or(3)`
abbrev pub count_or_three : Option String → ℕ
count_or_three none = 3
count_or_three (some s) = elim (parse_u64 s) [ none ↦ 3 | some k ↦ k ]

-- What the command `knn` uses of the demo.
pub record Demo (F : Type 0) : Type 0 where
  pub embeddings : List (List F)
  pub hnsw : HnswIndex F

-- The message of a node out of range leaves out the number.
unfoldable pub knn_command : {F : Type 0} → Floats F → Demo F → List String → Ended (List ℕ)
unfolding parse_mask parse_u64 search_knn
knn_command floats demo tokens = require_arg tokens 1 "knn <node> [k] [--mask a,b,c]" >>= λ arg.
    or_fail parse_error (parse_u64 arg) >>= λ node.
    let k = count_or_three (optional_arg tokens 2) in
    parse_mask tokens >>= λ mask_ids.
    or_fail (message "node out of range") (get_elem? demo.embeddings node) >>= λ query.
    let mask = mask_of (length demo.embeddings) mask_ids in
    from_outcome (search_knn floats demo.hnsw query k mask)

abbrev pub demo_edge : DeltaEdge
demo_edge = record { src = 3; dst = 1; edge_type = 5; valid_from = pos 0; valid_to = pos 500 }

-- What `delta` prints: the merged edges before, and the pending and merged edges after the insertion and
-- after the compaction.
pub record DeltaReport : Type 0 where
  pub before : ℕ
  pub inserted_pending : ℕ
  pub inserted_merged : ℕ
  pub compacted_pending : ℕ
  pub compacted_merged : ℕ

-- `?` on a result of the library, with the store that is left behind an error.
abbrev pub or_leave {ℓ} :
    {A B : Type ℓ} → Result A → LsmStore → (A → Ended B × LsmStore) → Ended B × LsmStore
or_leave (Error.err e) s next = (failed (core e), s)
or_leave (Error.ok v) s next = next v

unfoldable pub delta_command : UnstableSort → LsmStore → Ended DeltaReport × LsmStore
delta_command us s = or_leave (merged_edges us s) s (λ before.
    let s1 = insert demo_edge s in
    or_leave (merged_edges us s1) s1 (λ inserted.
      let (compacted, s2) = compact_now us s1 in
      or_leave compacted s2 (λ _. or_leave (merged_edges us s2) s2 (λ merged. (
        done (record {
          before = edges_len before;
          inserted_pending = pending s1;
          inserted_merged = edges_len inserted;
          compacted_pending = pending s2;
          compacted_merged = edges_len merged;
        }),
        s2,
      )))))
