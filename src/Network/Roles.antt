-- ===== src/Network/Roles.antt =====
-- alerter/src/p2p_network.rs: the roles of the peers over a run.
use subspace_chain_alerts.Base.{
  ◌≡◌, refl, List, [], ◌∷◌, Option, none, some, Bool, true, false, ◌&&◌, contains,
  contains-set_insert, contains-set_remove, nat_eq, ◌==◌, ◌++◌, arith, if◌then◌else◌,
}
use subspace_chain_alerts.Network.{
  PeerId, Multiaddr, ProtocolRole, full_node, light_node, authority, routable_peer,
  pot_protocol_open, pot_protocol_closed, pot_notification, block_announce_open, connection_closed,
  other_event, Network, Input, tick, event, start, add_peer_role, remove_peer, handle_event,
  add_address, dial_bootnodes, extract_peer_id, round, rounds, run,
}

-- A peer's role after it announced one: that of a light node is passed over.
abbrev announced : ProtocolRole → Option ProtocolRole → Option ProtocolRole
announced light_node old = old
announced role old = some role

-- The role of a peer after an input, by the role before.
abbrev pub role_after : PeerId → Input → Option ProtocolRole → Option ProtocolRole
role_after p (event now (pot_protocol_open peer role)) old =
    if peer == p then announced role old else old
role_after p (event now (block_announce_open peer role)) old =
    if peer == p then announced role old else old
role_after p (event now (connection_closed peer num_established)) old =
    if peer == p && num_established == 0 then none else old
role_after p _ old = old

abbrev pub last_role : PeerId → List Input → Option ProtocolRole → Option ProtocolRole
last_role p [] old = old
last_role p (i ∷ inputs) old = last_role p inputs (role_after p i old)

abbrev is_authority : Option ProtocolRole → Bool
is_authority (some authority) = true
is_authority _ = false

abbrev is_full_node : Option ProtocolRole → Bool
is_full_node (some full_node) = true
is_full_node _ = false

-- The sets list a peer exactly by its role.
pub record HasRole (n : Network) (p : PeerId) (role : Option ProtocolRole) : Type 0 where
  pub as_authority : contains p n.authorities ≡ is_authority role
  pub as_full_node : contains p n.fullnodes ≡ is_full_node role

add_peer_role-HasRole :
    (n : Network) (p peer : PeerId) (role : ProtocolRole) (old : Option ProtocolRole)
    → HasRole n p old
    → HasRole (add_peer_role peer role n) p (if peer == p then announced role old else old)
unfolding add_peer_role
add_peer_role-HasRole n p peer full_node old h = record {
  as_authority = ground (arith, contains-set_remove peer p n.authorities, h.as_authority);
  as_full_node = ground (arith, contains-set_insert peer p n.fullnodes, h.as_full_node);
}
add_peer_role-HasRole n p peer light_node old h = record {
  as_authority = ground (arith, h.as_authority);
  as_full_node = ground (arith, h.as_full_node);
}
add_peer_role-HasRole n p peer authority old h = record {
  as_authority = ground (arith, contains-set_insert peer p n.authorities, h.as_authority);
  as_full_node = ground (arith, contains-set_remove peer p n.fullnodes, h.as_full_node);
}

round-HasRole :
    (n : Network) (p : PeerId) (i : Input) (old : Option ProtocolRole)
    → HasRole n p old
    → HasRole (round i n) p (role_after p i old)
unfolding round handle_event remove_peer
round-HasRole n p tick old h = record {
  as_authority = h.as_authority;
  as_full_node = h.as_full_node;
}
round-HasRole n p (event now (routable_peer peer address)) old h = record {
  as_authority = h.as_authority;
  as_full_node = h.as_full_node;
}
round-HasRole n p (event now (pot_protocol_open peer role)) old h =
    add_peer_role-HasRole n p peer role old h
round-HasRole n p (event now (pot_protocol_closed peer)) old h = h
round-HasRole n p (event now (pot_notification peer message)) old h = record {
  as_authority = h.as_authority;
  as_full_node = h.as_full_node;
}
round-HasRole n p (event now (block_announce_open peer role)) old h =
    add_peer_role-HasRole n p peer role old h
round-HasRole n p (event now (connection_closed peer num_established)) old h = record {
  as_authority = ground (arith, contains-set_remove peer p n.authorities, h.as_authority);
  as_full_node = ground (arith, contains-set_remove peer p n.fullnodes, h.as_full_node);
}
round-HasRole n p (event now other_event) old h = h

rounds-HasRole :
    (n : Network) (p : PeerId) (inputs : List Input) (old : Option ProtocolRole)
    → HasRole n p old
    → HasRole (rounds inputs n) p (last_role p inputs old)
unfolding rounds
rounds-HasRole n p [] old h = h
rounds-HasRole n p (i ∷ inputs) old h =
    rounds-HasRole (round i n) p inputs (role_after p i old) (round-HasRole n p i old h)

dial_bootnodes-HasRole :
    (n : Network) (p : PeerId) (addrs : List Multiaddr) (role : Option ProtocolRole)
    → HasRole n p role
    → HasRole (dial_bootnodes addrs n) p role
unfolding dial_bootnodes add_address
dial_bootnodes-HasRole n p [] role h = h
dial_bootnodes-HasRole n p (addr ∷ addrs) role h =
    dial_bootnodes-HasRole _ p addrs role (add_address-HasRole (extract_peer_id addr))
  where
    add_address-HasRole :
        (o : Option PeerId)
        → HasRole (add_address o addr (record n { dialled = n.dialled ++ addr ∷ [] })) p role
    add_address-HasRole none = record {
      as_authority = h.as_authority;
      as_full_node = h.as_full_node;
    }
    add_address-HasRole (some peer) = record {
      as_authority = h.as_authority;
      as_full_node = h.as_full_node;
    }

-- At any time each peer is listed as an authority, or as a full node, or not at all, by the last role
-- other than light node that it has opened a protocol with, on either of the two protocols, since its
-- last connection was closed.
pub run-HasRole :
    (bootnodes : List Multiaddr) (inputs : List Input) (p : PeerId)
    → HasRole (run inputs (start bootnodes)) p (last_role p inputs none)
unfolding run contains
run-HasRole bootnodes inputs p =
    rounds-HasRole (dial_bootnodes bootnodes (start bootnodes)) p inputs none (
      dial_bootnodes-HasRole (start bootnodes) p bootnodes none
        (record { as_authority = refl; as_full_node = refl }))
