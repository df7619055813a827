-- ===== src/Message/BlockLists.antt =====
-- alerter/src/md_format.rs: the lines of a text, and the lists of blocks in the text of a re-org.
use subspace_chain_alerts.Base.{
  ℕ, ◌≡◌, ◌≢◌, refl, sym, ap, ◌∙◌, List, [], ◌∷◌, ◌++◌, map, All, All-append, arith, ◌==◌,
  if◌then◌else◌, Text, codes, concat, show_ℕ, show_ℕ-All, append_assoc, append-nil, length,
  Bool-cases, inl, inr,
}
use subspace_chain_alerts.Chain.{BlockHash, HashAndNumber}
use subspace_chain_alerts.Alert.{ChainReorg}
use subspace_chain_alerts.Message.{
  Rendering, FormatConfig, join_lines, list_line, format_hash_and_number,
  format_hash_and_number_list, link_of, format_reorg,
}

-- A text without a line break.
abbrev pub OneLine : Text → Type 0
OneLine = All (λ c. c ≢ 10)

-- A character before the first line.
abbrev put : ℕ → List Text → List Text
put c [] = (c ∷ []) ∷ []
put c (line ∷ rest) = (c ∷ line) ∷ rest

-- The lines of a text.
unfoldable pub lines : Text → List Text
lines [] = [] ∷ []
lines (c ∷ text) = let rest = lines text in if c == 10 then [] ∷ rest else put c rest

lines-cons : (text : Text) → (line : Text) × (rest : List Text) × (lines text ≡ line ∷ rest)
unfolding lines
lines-cons [] = ([], [], refl)
lines-cons (c ∷ text) =
    let (line, rest, e) = lines-cons text in
    elim (Bool-cases (c == 10)) [
      | inl break ↦ ([], lines text, rw break)
      | inr other ↦ (c ∷ line, rest, rw (other, e))
    ]

-- A line break ends the lines before it, and the lines after it follow.
lines-break : (text rest : Text) → lines (text ++ (10 ∷ rest)) ≡ lines text ++ lines rest
unfolding lines
lines-break [] rest = refl
lines-break (c ∷ text) rest =
    let (line, others, e) = lines-cons text in ground (arith, lines-break text rest, e)

lines-OneLine : (text : Text) → OneLine text → lines text ≡ text ∷ []
unfolding lines
lines-OneLine [] h = refl
lines-OneLine (c ∷ text) h = ground (arith, lines-OneLine text h.1)

-- A label and its text, on one line.
lines-label :
    (label text rest : Text)
    → OneLine label
    → OneLine text
    → lines (label ++ (text ++ (10 ∷ rest))) ≡ (label ++ text) ∷ lines rest
lines-label label text rest h h' =
    ap lines (sym (append_assoc label text (10 ∷ rest)))
    ∙ lines-break (label ++ text) rest
    ∙ ap (λ l. l ++ lines rest)
        (lines-OneLine (label ++ text) (All-append (λ c. c ≢ 10) label text h h'))

-- The lines of a list of blocks; of none there is one empty line.
abbrev pub or_blank : List Text → List Text
or_blank [] = [] ∷ []
or_blank (line ∷ rest) = line ∷ rest

lines-join_lines : (ls : List Text) → All OneLine ls → lines (join_lines ls) ≡ or_blank ls
unfolding join_lines
lines-join_lines [] h = unfold lines in refl
lines-join_lines (line ∷ []) h = lines-OneLine line h.0
lines-join_lines (line ∷ line' ∷ ls) h =
    lines-break line (join_lines (line' ∷ ls))
    ∙ rw (lines-OneLine line h.0, lines-join_lines (line' ∷ ls) h.1)

-- The texts of hashes and URLs have no line break.
pub record IsFlat (r : Rendering) : Type 0 where
  pub flat_hash : (h : BlockHash) → OneLine (r.display_hash h)
  pub flat_hex : (h : BlockHash) → OneLine (r.hex_encode h)
  pub flat_url : (url : Text) → OneLine (r.url_encode url)

show_ℕ-OneLine : (n : ℕ) → OneLine (show_ℕ n)
show_ℕ-OneLine n = show_ℕ-All (λ c. c ≢ 10) (λ d h. ground arith) n

OneLine-append : (a b : Text) → OneLine a → OneLine b → OneLine (a ++ b)
OneLine-append a b h h' = All-append (λ c. c ≢ 10) a b h h'

concat-OneLine : (pieces : List Text) → All OneLine pieces → OneLine (concat pieces)
concat-OneLine [] h = tt
concat-OneLine (p ∷ pieces) h = OneLine-append p (concat pieces) h.0 (concat-OneLine pieces h.1)

module _ (r : Rendering) (flat : IsFlat r) (config : FormatConfig) where
  link_of-OneLine : (hash : BlockHash) → OneLine (link_of r config hash)
  unfolding link_of
  link_of-OneLine hash =
      concat-OneLine
        (codes "https://polkadot.js.org/apps/?rpc="
          ∷ r.url_encode config.rpc_url
          ∷ codes "#/explorer/query/0x"
          ∷ r.hex_encode hash
          ∷ [])
        (omega arith, (flat.flat_url config.rpc_url, (omega arith, (flat.flat_hex hash, tt))))

  format_hash_and_number-OneLine : (b : HashAndNumber) → OneLine (format_hash_and_number r config b)
  unfolding format_hash_and_number
  format_hash_and_number-OneLine b =
      concat-OneLine
        (codes "["
          ∷ r.display_hash b.hash
          ∷ codes "]("
          ∷ link_of r config b.hash
          ∷ codes ") ("
          ∷ show_ℕ b.number
          ∷ codes ")"
          ∷ [])
        (
          omega arith,
          (
            flat.flat_hash b.hash,
            (
              omega arith,
              (link_of-OneLine b.hash, (omega arith, (show_ℕ-OneLine b.number, (omega arith, tt)))),
            ),
          ),
        )

  list_line-OneLine : (b : HashAndNumber) → OneLine (list_line r config b)
  unfolding list_line
  list_line-OneLine b =
      OneLine-append (codes "- ") (format_hash_and_number r config b) (omega arith)
        (format_hash_and_number-OneLine b)

  list_lines-OneLine : (bs : List HashAndNumber) → All OneLine (map (list_line r config) bs)
  list_lines-OneLine [] = tt
  list_lines-OneLine (b ∷ bs) = (list_line-OneLine b, list_lines-OneLine bs)

  -- The lines of a list of blocks.
  abbrev pub block_lines : List HashAndNumber → List Text
  block_lines bs = or_blank (map (list_line r config) bs)

  lines-format_hash_and_number_list :
      (bs : List HashAndNumber) → lines (format_hash_and_number_list r config bs) ≡ block_lines bs
  unfolding format_hash_and_number_list
  lines-format_hash_and_number_list bs =
      lines-join_lines (map (list_line r config) bs) (list_lines-OneLine bs)

  -- The end of the text: the enacted blocks and the depth.
  lines-enacted :
      (bs : List HashAndNumber) (depth : ℕ)
      → lines (
          codes "Enacted blocks:\n"
          ++ (format_hash_and_number_list r config bs
              ++ (codes "\nReorg Depth: " ++ (show_ℕ depth ++ []))))
        ≡ codes "Enacted blocks:" ∷ (block_lines bs ++ (codes "Reorg Depth: " ++ show_ℕ depth) ∷ [])
  lines-enacted bs depth =
      let last_line = codes "Reorg Depth: " ++ (show_ℕ depth ++ []) in
      let list = format_hash_and_number_list r config bs in
      let plain : show_ℕ depth ++ [] ≡ show_ℕ depth = append-nil (show_ℕ depth) in
      lines-break (codes "Enacted blocks:") (list ++ (10 ∷ last_line))
      ∙ rw (
        lines-OneLine (codes "Enacted blocks:") (omega arith),
        lines-break list last_line,
        lines-format_hash_and_number_list bs,
        plain,
        lines-OneLine (codes "Reorg Depth: " ++ show_ℕ depth) (
            OneLine-append (codes "Reorg Depth: ") (show_ℕ depth) (omega arith)
              (show_ℕ-OneLine depth)),
      )

  -- The text of a re-org, read line by line: the heading and the best block, the common block, then one
  -- line for each retracted block in the alert's order, one for each enacted block in its order, and
  -- the depth, the number of retracted blocks; an empty list has one empty line. Here hashes and URLs
  -- are written without line breaks.
  pub lines-format_reorg :
      (a : ChainReorg)
      → lines (format_reorg r config a)
        ≡ codes "**Chain reorg**"
          ∷ (codes "Best block: " ++ format_hash_and_number r config a.best_block)
          ∷ (codes "Common block: " ++ format_hash_and_number r config a.common_block)
          ∷ codes "Retracted blocks:"
          ∷ (block_lines a.retracted
              ++ codes "Enacted blocks:"
                ∷ (block_lines a.enacted
                    ++ (codes "Reorg Depth: " ++ show_ℕ (length a.retracted)) ∷ []))
  unfolding format_reorg
  lines-format_reorg a =
      let best = format_hash_and_number r config a.best_block in
      let common = format_hash_and_number r config a.common_block in
      let retracted = format_hash_and_number_list r config a.retracted in
      let enacted = format_hash_and_number_list r config a.enacted in
      let depth = codes "\nReorg Depth: " ++ (show_ℕ (length a.retracted) ++ []) in
      let after_retracted = codes "Enacted blocks:\n" ++ (enacted ++ depth) in
      let after_common = codes "Retracted blocks:\n" ++ (retracted ++ (10 ∷ after_retracted)) in
      let after_best = codes "Common block: " ++ (common ++ (10 ∷ after_common)) in
      lines-break (codes "**Chain reorg**") (codes "Best block: " ++ (best ++ (10 ∷ after_best)))
      ∙ rw (
        lines-OneLine (codes "**Chain reorg**") (omega arith),
        lines-label (codes "Best block: ") best after_best (omega arith)
            (format_hash_and_number-OneLine a.best_block),
        lines-label (codes "Common block: ") common after_common (omega arith)
            (format_hash_and_number-OneLine a.common_block),
        lines-break (codes "Retracted blocks:") (retracted ++ (10 ∷ after_retracted)),
        lines-OneLine (codes "Retracted blocks:") (omega arith),
        lines-break retracted after_retracted,
        lines-format_hash_and_number_list a.retracted,
        lines-enacted a.enacted (length a.retracted),
      )
