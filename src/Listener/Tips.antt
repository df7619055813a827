-- ===== src/Listener/Tips.antt =====
-- alerter/src/subspace.rs: the last block of each message that the listener broadcasts.
use subspace_chain_alerts.Base.{
  ℕ, ◌-◌, ◌≡◌, refl, List, [], ◌∷◌, ◌++◌, some, last, All, All-append, arith, Option-cases, inl,
  inr,
}
use subspace_chain_alerts.Error.{Exec, ok, err, panic, running, traverse, >>=-eq-ok, ok-injective}
use subspace_chain_alerts.Chain.{
  SubstrateHeader, BlockExt, BlocksExt, HashAndNumber, cache_header_depth,
}
use subspace_chain_alerts.Cache
use subspace_chain_alerts.Cache.{HeadersMetadataCache}
use subspace_chain_alerts.Listener.Actions.{
  Node, TreeRoute, Library, Listener, keep_cache, add_header, remove_header_until, set_best,
}
use subspace_chain_alerts.Listener.Route.{recursive_tree_route}
use subspace_chain_alerts.Listener.Import.{
  Block, get_block_ext, reorg_data, enact, import_best, on_block,
}
use subspace_chain_alerts.Listener.Sessions.{Session, listen_for_all_blocks}
use subspace_chain_alerts.Listener.Growth.{
  Grown-frame, add_header-Grown, recursive_tree_route-Grows,
}
use subspace_chain_alerts.Listener.Keeps.{Keeps, keeps_rules, listen_for_all_blocks-Keeps}

-- A message has a last block.
abbrev pub HasTip : BlocksExt → Type 0
HasTip message = (b : BlockExt) × (last message.blocks ≡ some b)

abbrev pub HasTips : Listener → Type 0
HasTips s = All HasTip s.sent

last-cons {ℓ} :
    {A : Type ℓ} (x : A) (xs : List A) {y : A} → last xs ≡ some y → last (x ∷ xs) ≡ some y
last-cons x [] e = absurd (ground arith)
last-cons x (x' ∷ xs) e = e

traverse-last {ℓ κ} :
    {A : Type ℓ} {B : Type κ} (f : A → Exec B) (xs : List A) (ys : List B) {x : A}
    → traverse f xs ≡ ok ys
    → last xs ≡ some x
    → (y : B) × (last ys ≡ some y)
unfolding traverse
traverse-last f [] ys e l = absurd (ground arith)
traverse-last f (x ∷ []) ys e l = let (y, got, e') = >>=-eq-ok (f x) _ e in (y, ground arith)
traverse-last f (x ∷ x' ∷ xs) ys e l =
    let (y, got, e') = >>=-eq-ok (f x) _ e in
    let (zs, others, e'') = >>=-eq-ok (traverse f (x' ∷ xs)) (λ zs. ok (y ∷ zs)) e' in
    let (tip, at_end) = traverse-last f (x' ∷ xs) zs others l in
    (tip, rw (← ok-injective e'') (last-cons y zs at_end))

keep_cache-HasTips :
    (m : Exec HeadersMetadataCache) (s : Listener) → HasTips s → HasTips (keep_cache m s).1
keep_cache-HasTips (ok cache) s h = h
keep_cache-HasTips _ s h = h

enact-HasTips : (number : ℕ) (route : TreeRoute) → Keeps HasTips (enact number route)
unfolding enact remove_header_until
enact-HasTips number route = record {
  at = λ s h.
      after_blocks s h (traverse (λ b. get_block_ext s.header_metadata b.hash) route.enacted) refl;
}
  where
    after_blocks :
        (s : Listener)
        → HasTips s
        → (m : Exec (List BlockExt))
        → traverse (λ b. get_block_ext s.header_metadata b.hash) route.enacted ≡ m
        → HasTips (enact number route s).1
    after_blocks s h (ok blocks) e = elim (Option-cases (last route.enacted)) [
      | inl nothing ↦ rw (e, nothing) h
      | inr (best, at_end) ↦
          let message : BlocksExt = record {
            blocks = blocks;
            maybe_reorg_data = reorg_data route;
          } in
          let sent : Listener = record s {
            current_best_block = best;
            sent = s.sent ++ message ∷ [];
          } in
          rw (e, at_end)
            (keep_cache-HasTips
              (Cache.remove_header_until (number - cache_header_depth) s.header_metadata) sent
              (All-append HasTip s.sent (message ∷ []) h (
                traverse-last (λ b. get_block_ext s.header_metadata b.hash) route.enacted blocks e
                    at_end,
                tt,
              )))
    ]
    after_blocks s h (err x) e = rw e h
    after_blocks s h panic e = rw e h
    after_blocks s h running e = rw e h

set_best-HasTips : (best : HashAndNumber) → Keeps HasTips (set_best best)
set_best-HasTips best = record { at = λ s h. h }

module _ (lib : Library) where
  add_header-HasTips : (header : SubstrateHeader) → Keeps HasTips (add_header lib.hashing header)
  add_header-HasTips header = record {
    at = λ s h.
        let (best, sent) = Grown-frame lib.hashing (add_header-Grown lib.hashing header s) in
        rw sent h;
  }

  route-HasTips :
      (node : Node) (fuel from to : ℕ) → Keeps HasTips (recursive_tree_route lib node fuel from to)
  route-HasTips node fuel from to = record {
    at = λ s h.
        let (best, sent) =
          Grown-frame lib.hashing ((recursive_tree_route-Grows lib node fuel from to).at s) in
        rw sent h;
  }

  on_block-HasTips :
      (node : Node) (fuel : ℕ) (block : Block) → Keeps HasTips (on_block lib node fuel block)
  unfolding on_block import_best
  on_block-HasTips node fuel block =
      search (keeps_rules, add_header-HasTips, route-HasTips, enact-HasTips) depth 9

  -- Over all sessions, blocks, errors and reconnections, every message that the listener broadcasts has
  -- at least one block, if those before it have.
  pub listen_for_all_blocks-HasTips :
      (fuel : ℕ) (sessions : List Session) → Keeps HasTips (listen_for_all_blocks lib fuel sessions)
  listen_for_all_blocks-HasTips fuel sessions =
      listen_for_all_blocks-Keeps HasTips lib on_block-HasTips add_header-HasTips set_best-HasTips
        fuel sessions
