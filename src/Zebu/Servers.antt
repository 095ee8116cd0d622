-- ===== src/Zebu/Servers.antt =====
-- The servers that `zebu_server_start` (src/core/multisim_server.cpp) has decoded and started.
use multisim.Base.{
  ℕ, ◌≡◌, refl, sym, subst, ap, ◌∙◌, List, [], ◌∷◌, ◌++◌, All, Bytes, bytes_eq, bytes_eq_iff,
  length, take, take_all, arith, Bool-cases, Option-cases, inl, inr, none, some, returned,
  >>=-eq-returned, returned-injective,
}
use multisim.Os.{Os}
use multisim.Names.{Names, find, insert, find-insert}
use multisim.MultisimServer.{State, multisim_server_start}
use multisim.MultisimServer.Start.{multisim_server_start-Registered}
use multisim.Zebu.{
  ZebuServer, ZebuState, zebu_name_words, zebu_server_name, find_packed, index_at, start_if_new,
  push_server, add_server, zebu_server_start,
}

-- An entry has the name that its packed name decodes to, and the index of that name.
pub record IsEntry (names : Names) (s : ZebuServer) : Type 0 where
  pub decoded : zebu_server_name s.packed_name ≡ returned s.name
  pub indexed : find s.name names ≡ some s.idx

All-map :
    {P Q : ZebuServer → Type 0} (servers : List ZebuServer)
    → ((s : ZebuServer) → P s → Q s)
    → All P servers
    → All Q servers
All-map [] f a = tt
All-map (s ∷ servers) f (p, ps) = (f s p, All-map servers f ps)

All-snoc :
    (P : ZebuServer → Type 0) (servers : List ZebuServer) (s : ZebuServer)
    → All P servers
    → P s
    → All P (servers ++ s ∷ [])
All-snoc P [] s a p = (p, tt)
All-snoc P (x ∷ servers) s (q, qs) p = (q, All-snoc P servers s qs p)

pub find_packed-some :
    (P : ZebuServer → Type 0) (key : List ℕ) (servers : List ZebuServer) (s : ZebuServer)
    → All P servers
    → find_packed key servers ≡ some s
    → (s.packed_name ≡ key) × P s
unfolding find_packed
find_packed-some P key [] s a e = absurd cc
find_packed-some P key (x ∷ servers) s (p, ps) e = elim (Bool-cases (bytes_eq x.packed_name key)) [
  | inl hit ↦
      let found : some x ≡ some s = rw hit at e in
      let same : x ≡ s = cc in rw (← same) ((bytes_eq_iff x.packed_name key).0 hit, p)
  | inr miss ↦ find_packed-some P key servers s ps (rw miss at e)
]

-- What a start keeps: the indices of the names that are there, and that `name` has one.
pub record Kept (before after : Names) (name : Bytes) : Type 0 where
  pub old : (k : Bytes) (i : ℕ) → find k before ≡ some i → find k after ≡ some i
  pub new : (i : ℕ) × (find name after ≡ some i)

insert-Kept :
    (name : Bytes) (n : ℕ) (names names' : Names)
    → find name names ≡ none
    → names' ≡ insert name n names
    → Kept names names' name
insert-Kept name n names names' missing e = rw e (record {
  old = λ k i f. ground (arith, find-insert k name n names, bytes_eq_iff name k);
  new = (n, ground (arith, find-insert name name n names, bytes_eq_iff name name));
})

module _ (os : Os) where
  pub start_if_new-Kept :
      (fuel : ℕ) (s s' : State os.World) (name : Bytes)
      → start_if_new os fuel s name ≡ returned s'
      → Kept s.server_name_to_idx s'.server_name_to_idx name
  unfolding start_if_new
  start_if_new-Kept fuel s s' name e = elim (Option-cases (find name s.server_name_to_idx)) [
    | inl missing ↦
        let (q, started, e1) =
          >>=-eq-returned (multisim_server_start os fuel s name) _
            (rw (missing, start_if_new) at e) in
        let out : q.1 ≡ s' = returned-injective e1 in
        let r = (multisim_server_start-Registered os fuel s name q started).1 in
        insert-Kept name s.server_idx s.server_name_to_idx s'.server_name_to_idx missing
          (ap (λ v. v.server_name_to_idx) (sym out) ∙ r.map)
    | inr (i, there) ↦
        let out : s ≡ s' = returned-injective (rw (there, start_if_new) at e) in
        record {
          old = λ k j f. ap (λ v. find k v.server_name_to_idx) (sym out) ∙ f;
          new = (i, ap (λ v. find name v.server_name_to_idx) (sym out) ∙ there);
        }
  ]

  -- What a call has: the entry of the packed name, and a list of entries.
  record Served (packed : List ℕ) (s : ZebuServer) (z : ZebuState os.World) : Type 0 where
    pub packed_is : s.packed_name ≡ packed
    pub entry : IsEntry z.process.server_name_to_idx s
    pub entries : All (IsEntry z.process.server_name_to_idx) z.zebu_servers

  push_server-Served :
      (z : ZebuState os.World) (packed : List ℕ) (name : Bytes) (p : State os.World)
      → zebu_server_name packed ≡ returned name
      → All (IsEntry z.process.server_name_to_idx) z.zebu_servers
      → Kept z.process.server_name_to_idx p.server_name_to_idx name
      → Served packed (push_server os z packed name p).0 (push_server os z packed name p).1
  unfolding push_server index_at
  push_server-Served z packed name p d a k =
      let (i, there) = k.new in
      let here : IsEntry p.server_name_to_idx
          (record { packed_name = packed; name = name; idx = i }) =
        record { decoded = d; indexed = there } in
      let all =
        All-map z.zebu_servers
          (λ s e. record { decoded = e.decoded; indexed = k.old s.name s.idx e.indexed }) a in
      rw (there, index_at)
        (record {
          packed_is = refl;
          entry = here;
          entries = All-snoc (IsEntry p.server_name_to_idx) z.zebu_servers _ all here;
        })

  add_server-Served :
      (fuel : ℕ) (z : ZebuState os.World) (packed : List ℕ) (q : ZebuServer × ZebuState os.World)
      → length packed ≡ zebu_name_words
      → All (IsEntry z.process.server_name_to_idx) z.zebu_servers
      → add_server os fuel z packed ≡ returned q
      → Served packed q.0 q.1
  unfolding add_server
  add_server-Served fuel z packed q n a e =
      let whole : take zebu_name_words packed ≡ packed =
        take_all zebu_name_words packed (omega arith) in
      let (name, decodes, e1) = >>=-eq-returned (zebu_server_name packed) _ e in
      let (p, starts, e2) = >>=-eq-returned (start_if_new os fuel z.process name) _ e1 in
      let out = ap (λ x. push_server os z x name p) (sym whole) ∙ returned-injective e2 in
      subst (λ v. Served packed v.0 v.1) out
        (push_server-Served z packed name p decodes a
          (start_if_new-Kept fuel z.process p name starts))

  -- The cache of decoded names is transparent. Where every entry so far has the name that its packed
  -- name decodes to, and the index of that name, a call that returns, for a packed name of 129 words,
  -- gives an entry of which both are true, and they stay true of all entries: whether the name was
  -- decoded before, or its server was already started, or is started now.
  pub zebu_server_start-IsEntry :
      (fuel : ℕ) (z : ZebuState os.World) (packed : List ℕ) (q : ZebuServer × ZebuState os.World)
      → length packed ≡ zebu_name_words
      → All (IsEntry z.process.server_name_to_idx) z.zebu_servers
      → zebu_server_start os fuel z packed ≡ returned q
      → (zebu_server_name packed ≡ returned q.0.name)
        × IsEntry q.1.process.server_name_to_idx q.0
        × All (IsEntry q.1.process.server_name_to_idx) q.1.zebu_servers
  unfolding zebu_server_start
  zebu_server_start-IsEntry fuel z packed q n a e =
      let whole : take zebu_name_words packed ≡ packed =
        take_all zebu_name_words packed (omega arith) in
      elim (Option-cases (find_packed (take zebu_name_words packed) z.zebu_servers)) [
        | inl new' ↦
            let v = add_server-Served fuel z packed q n a (rw (new', zebu_server_start) at e) in
            (rw v.packed_is at v.entry.decoded, v.entry, v.entries)
        | inr (s, hit) ↦
            let out : ◌≡◌ {A = ZebuServer × ZebuState os.World} (s, z) q =
              returned-injective (rw (hit, zebu_server_start) at e) in
            let (same, v) =
              find_packed-some (IsEntry z.process.server_name_to_idx) (take zebu_name_words packed)
                z.zebu_servers s a hit in
            rw (← out) (rw (same ∙ whole) at v.decoded, v, a)
      ]
