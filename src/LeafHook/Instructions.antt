-- ===== src/LeafHook/Instructions.antt =====
-- The loop of the rewriting: copies of instructions and loads, with the data of the loads.
use kn_shim.Base.{
  ℕ, take, drop, take-length_append, drop-length_append, ◌%◌, ◌^◌, ◌+◌, ◌*◌, ◌≤◌, ◌≡◌, refl, sym,
  ap, ◌∙◌, inl, inr, List, [], ◌∷◌, ◌++◌, length, arith, length-append, append_assoc, append-nil,
}
use kn_shim.Dict.Blob.{Bytes}
use kn_shim.Memory.{int_bytes, length-int_bytes}
use kn_shim.LeafHook.{LhStream, rewrite_instructions}
use kn_shim.LeafHook.Literals.{Aimed, IsPlain, Refers, rewrite_instruction-Aimed}

-- The memory of instructions.
unfoldable pub words_bytes : List ℕ → Bytes
words_bytes [] = []
words_bytes (w ∷ ws) = int_bytes w ++ words_bytes ws

-- Word `i` of a block: a plain instruction, or a load of what the instruction puts into its
-- register, from a place in the data, which are behind `block_size + 2` words.
pub data IsRewritten (memory : ℕ → ℕ) (old_block block_size i ins word : ℕ) (datums : Bytes)
    : Type 0 where
  copied : IsPlain ins → word ≡ ins → IsRewritten memory old_block block_size i ins word datums
  loaded :
      (x imm place : ℕ) (datum : Bytes)
      → Refers memory (old_block + 4 * i) i ins x datum
      → word ≡ 0x18000000 + x * 2 ^ 30 + 32 * imm + ins % 2 ^ 5
      → 4 * i + 4 * imm ≡ 4 * (block_size + 2) + place
      → take (length datum) (drop place datums) ≡ datum
      → IsRewritten memory old_block block_size i ins word datums

-- The words from number `i` on.
abbrev pub AllAimed : (ℕ → ℕ) → ℕ → ℕ → ℕ → List ℕ → List ℕ → Bytes → Type 0
AllAimed memory old_block block_size i [] words datums = words ≡ []
AllAimed memory old_block block_size i (ins ∷ instructions) [] datums = ⊥
AllAimed memory old_block block_size i (ins ∷ instructions) (w ∷ words) datums =
    IsRewritten memory old_block block_size i ins w datums
    × AllAimed memory old_block block_size (i + 1) instructions words datums

-- What the loop has written at its end.
pub record Written (memory : ℕ → ℕ) (old_block block_size i : ℕ) (instructions : List ℕ)
    (code data' : LhStream) (r : LhStream × LhStream) : Type 0 where
  pub words : List ℕ
  pub datums : Bytes
  pub wrote : r ≡ (code ++ words_bytes words, data' ++ datums)
  pub many : length code + length (words_bytes words) ≡ 4 * block_size
  pub half : ℕ
  pub whole : length (data' ++ datums) ≡ 4 * half
  pub few : half ≤ 2 * block_size
  pub all :
      (after : Bytes)
      → AllAimed memory old_block block_size i instructions words ((data' ++ datums) ++ after)

pub rewrite_instructions-Written :
    (memory : ℕ → ℕ) (old_block block_size i k : ℕ) (instructions : List ℕ) (code data' : LhStream)
    → i + length instructions ≡ block_size
    → block_size ≤ 8
    → length code ≡ 4 * i
    → length data' ≡ 4 * k
    → k ≤ 2 * i
    → Written memory old_block block_size i instructions code data'
        (rewrite_instructions memory old_block block_size i instructions (code, data'))
unfolding rewrite_instructions words_bytes
rewrite_instructions-Written memory old_block block_size i k [] code data' place size at_code
      at_data bound =
    record {
      words = [];
      datums = [];
      wrote = rw (append-nil code, append-nil data') refl;
      many = omega arith;
      half = k;
      whole = rw (append-nil data') at_data;
      few = omega arith;
      all = λ after. refl;
    }
rewrite_instructions-Written memory old_block block_size i k (ins ∷ rest) code data' place size
      at_code at_data bound =
    let step =
      rewrite_instruction-Aimed memory old_block block_size i k ins code data' (omega arith) size
        at_code at_data (omega arith) in
    let longer : length (code ++ int_bytes step.word) ≡ 4 * (i + 1) =
      omega (arith, length-append code (int_bytes step.word), length-int_bytes step.word) in
    let (k', at_data', bound') = grown step in
    let later =
      rewrite_instructions-Written memory old_block block_size (i + 1) k' rest
        (code ++ int_bytes step.word) (data' ++ step.datum) (omega arith) size longer at_data'
        bound' in
    let same : (data' ++ step.datum) ++ later.datums ≡ data' ++ (step.datum ++ later.datums) =
      append_assoc data' step.datum later.datums in
    record {
      words = step.word ∷ later.words;
      datums = step.datum ++ later.datums;
      wrote =
          ap (rewrite_instructions memory old_block block_size (i + 1) rest) step.wrote
          ∙ later.wrote
          ∙ rw (append_assoc code (int_bytes step.word) (words_bytes later.words), same) refl;
      many = omega (
        arith,
        later.many,
        length-append code (int_bytes step.word),
        length-append (int_bytes step.word) (words_bytes later.words),
      );
      half = later.half;
      whole = ap length (sym same) ∙ later.whole;
      few = later.few;
      all = λ after. rw (← same) (first step later.datums after, later.all after);
    }
  where
    grown :
        {r : LhStream × LhStream} (step : Aimed memory old_block block_size i code data' ins r)
        → (k' : ℕ) × (length (data' ++ step.datum) ≡ 4 * k') × (k' ≤ 2 * (i + 1))
    grown step = elim step.aim [
      | inl (_, _, e) ↦ (k, omega (arith, length-append data' step.datum, ap length e), omega arith)
      | inr l ↦ elim l.size [
        | inl e ↦ (k + 2, omega (arith, length-append data' step.datum), omega arith)
        | inr e ↦ (k + 1, omega (arith, length-append data' step.datum), omega arith)
      ]
    ]

    there :
        (datum datums after : Bytes)
        → take (length datum) (drop (length data') (((data' ++ datum) ++ datums) ++ after)) ≡ datum
    there datum datums after =
        rw
          (
            append_assoc (data' ++ datum) datums after,
            append_assoc data' datum (datums ++ after),
            drop-length_append data' (datum ++ (datums ++ after)),
          )
          (take-length_append datum (datums ++ after))

    first :
        {r : LhStream × LhStream} (step : Aimed memory old_block block_size i code data' ins r)
        (datums after : Bytes)
        → IsRewritten memory old_block block_size i ins step.word
            (((data' ++ step.datum) ++ datums) ++ after)
    first step datums after = elim step.aim [
      | inl (plain, e, _) ↦ copied plain e
      | inr l ↦
          loaded l.x l.imm (length data') step.datum l.refers l.loads (omega (arith, l.place))
            (there step.datum datums after)
    ]
