-- ===== src/MultisimServer/Start.antt =====
-- `multisim_server_start` (src/core/multisim_server.cpp) and the invariant of the process.
use native.Mathlib.Decide.{ℕ_discrete}
use multisim.Base.{
  ◌≢◌, ℕ, ◌+◌, ◌≤◌, ◌<◌, ◌≡◌, refl, sym, ◌∙◌, ap, ◌⊎◌, true, false, List, ◌∷◌, ltb, ltb→lt,
  ltb_false→le, if◌then◌else◌, Bytes, codes, bytes_eq, bytes_eq_iff, length, arith, Bool-cases, inl,
  inr, none, some, returned, aborted, >>=-eq-returned, returned-injective, exited-ne-returned,
  aborted-ne-returned,
}
use multisim.Os.{Os}
use multisim.SocketServer
use multisim.SocketServer.{Server}
use multisim.SocketServer.Start.{start-Started}
use multisim.Names.{
  find, insert, find-insert, server_max, server_name_len, check_server_name, IsIndexed,
  IsIndexed-insert,
}
use multisim.MultisimServer.{State, success, multisim_server_start, register, update}

-- The invariant: at most 1024 servers, one for each name of the map, each made with its name, and
-- each name of the map is in the static set.
pub record IsValid {World : Type 0} (s : State World) : Type 0 where
  pub bounded : s.server_idx ≤ server_max
  pub indexed : IsIndexed s.server_idx s.server_name_to_idx
  pub named :
      (name : Bytes) (i : ℕ)
      → find name s.server_name_to_idx ≡ some i
      → (s.server i).server_name ≡ name
  pub registered :
      (name : Bytes) (i : ℕ)
      → find name s.server_name_to_idx ≡ some i
      → SocketServer.in_set name s.server_name_set ≡ true

-- What a start that returns has checked and done.
pub record Registered {World : Type 0} (s : State World) (name : Bytes) (s' : State World)
    : Type 0 where
  pub room : s.server_idx < server_max
  pub short : length name ≤ server_name_len
  pub fresh : SocketServer.in_set name s.server_name_set ≡ false
  pub next_idx : s'.server_idx ≡ s.server_idx + 1
  pub map : s'.server_name_to_idx ≡ insert name s.server_idx s.server_name_to_idx
  pub names : s'.server_name_set ≡ name ∷ s.server_name_set
  pub made : (s'.server s.server_idx).server_name ≡ name
  pub up : (s'.server s.server_idx).server_is_running ≡ true
  pub unconnected : s'.sockets s.server_idx ≡ none
  pub other_servers : (i : ℕ) → (i ≡ s.server_idx) ⊎ (s'.server i ≡ s.server i)
  pub other_sockets : (i : ℕ) → (i ≡ s.server_idx) ⊎ (s'.sockets i ≡ s.sockets i)

pub update_self {ℓ} : {A : Type ℓ} (f : ℕ → A) (i : ℕ) (v : A) → update f i v i ≡ v
update_self f i v = ground arith

update_other {ℓ} : {A : Type ℓ} (f : ℕ → A) (i j : ℕ) (v : A) → (j ≡ i) ⊎ (update f i v j ≡ f j)
update_other f i j v = elim (ℕ_discrete j i) [ yes here ↦ inl here | no there ↦ inr (ground arith) ]

pub update_ne {ℓ} : {A : Type ℓ} (f : ℕ → A) (i j : ℕ) (v : A) → j ≢ i → update f i v j ≡ f j
update_ne f i j v h = elim (update_other f i j v) [ inl e ↦ absurd (h e) | inr e ↦ e ]

checked :
    (name : Bytes) {u : Unit {0}}
    → check_server_name name ≡ returned u
    → length name ≤ server_name_len
unfolding check_server_name
checked name e = elim (Bool-cases (ltb server_name_len (length name))) [
  | inl long ↦ absurd (exited-ne-returned (rw long at e))
  | inr short ↦ ltb_false→le _ _ short
]

constructed :
    (names : List Bytes) (dir name : Bytes) {m : Server × List Bytes}
    → SocketServer.construct names dir name ≡ returned m
    → (SocketServer.in_set name names ≡ false)
      × (m ≡ (SocketServer.new_server dir name, name ∷ names))
unfolding SocketServer.construct
constructed names dir name e = elim (Bool-cases (SocketServer.in_set name names)) [
  | inl old ↦ absurd (exited-ne-returned (rw (old, SocketServer.construct) at e))
  | inr new ↦ (new, sym (returned-injective (rw (new, SocketServer.construct) at e)))
]

module _ (os : Os) where
  register-Registered :
      (s : State os.World) (name : Bytes) (names : List Bytes) (up : Server × os.World)
      → names ≡ name ∷ s.server_name_set
      → s.server_idx < server_max
      → length name ≤ server_name_len
      → SocketServer.in_set name s.server_name_set ≡ false
      → up.0.server_name ≡ name
      → up.0.server_is_running ≡ true
      → Registered s name (register os s name names up)
  unfolding register
  register-Registered s name names (made, w) set room short fresh same up = record {
    room = room;
    short = short;
    fresh = fresh;
    next_idx = refl;
    map = refl;
    names = set;
    made = ap (λ (v : Server). v.server_name) (update_self s.server s.server_idx made) ∙ same;
    up = ap (λ (v : Server). v.server_is_running) (update_self s.server s.server_idx made) ∙ up;
    unconnected = update_self s.sockets s.server_idx none;
    other_servers = λ i. update_other s.server s.server_idx i made;
    other_sockets = λ i. update_other s.sockets s.server_idx i none;
  }

  started_name :
      (fuel : ℕ) (w : os.World) (dir name : Bytes) (names : List Bytes) (m : Server × List Bytes)
      (up : Server × os.World)
      → m ≡ (SocketServer.new_server dir name, names)
      → SocketServer.start os fuel w m.0 ≡ returned up
      → (up.0.server_name ≡ name) × (up.0.server_is_running ≡ true)
  started_name fuel w dir name names m up e h =
      let (_, t) = start-Started os fuel w (SocketServer.new_server dir name) up (rw e at h) in
      (t.same_name, t.running)

  -- The servers' names are distinct, at most 512 bytes long and at most 1024: a start that returns
  -- has found a free index, a name that fits and a name that is not taken; it gives success, and has
  -- put a running server of that name, with no client yet, at the next index, and changed no other.
  pub multisim_server_start-Registered :
      (fuel : ℕ) (s : State os.World) (name : Bytes) (q : ℕ × State os.World)
      → multisim_server_start os fuel s name ≡ returned q
      → (q.0 ≡ success) × Registered s name q.1
  unfolding multisim_server_start
  multisim_server_start-Registered fuel s name q e =
      elim (Bool-cases (ltb s.server_idx server_max)) [
        | inr full ↦ absurd (aborted-ne-returned (rw full at e))
        | inl room ↦
            let (u, fits, e1) = >>=-eq-returned (check_server_name name) _ (rw room at e) in
            let (m, built, e2) =
              >>=-eq-returned (SocketServer.construct s.server_name_set (codes ".multisim") name) _
                e1 in
            let (up, started, e3) = >>=-eq-returned (SocketServer.start os fuel s.world m.0) _ e2 in
            let (fresh, same) = constructed s.server_name_set (codes ".multisim") name built in
            let (named, running) =
              started_name fuel s.world (codes ".multisim") name (name ∷ s.server_name_set) m up
                same started in
            let names : m.1 ≡ name ∷ s.server_name_set =
              ap (λ (v : Server × List Bytes). v.1) same in
            let out : (success, register os s name m.1 up) ≡ q = returned-injective e3 in
            rw (← out) (
              refl,
              register-Registered s name m.1 up names (ltb→lt _ _ room) (checked name fits) fresh
                  named running,
            )
      ]

  found_after :
      (s s' : State os.World) (name k : Bytes) (i : ℕ)
      → Registered s name s'
      → find k s'.server_name_to_idx ≡ some i
      → (if bytes_eq name k then some s.server_idx else find k s.server_name_to_idx) ≡ some i
  found_after s s' name k i r e =
      sym (find-insert k name s.server_idx s.server_name_to_idx) ∙ (rw r.map at e)

  named_after :
      (s s' : State os.World) (name k : Bytes) (i : ℕ)
      → Registered s name s'
      → IsValid s
      → find k s'.server_name_to_idx ≡ some i
      → (s'.server i).server_name ≡ k
  named_after s s' name k i r v e = elim (Bool-cases (bytes_eq name k)) [
    | inl same ↦
        let f : some s.server_idx ≡ some i = rw same at (found_after s s' name k i r e) in
        let here : s.server_idx ≡ i = cc in (rw here at r.made) ∙ (bytes_eq_iff name k).0 same
    | inr differ ↦
        let f : find k s.server_name_to_idx ≡ some i =
          rw differ at (found_after s s' name k i r e) in
        elim (r.other_servers i) [
          | inl here ↦ absurd (omega (arith, v.indexed.below k i f))
          | inr same ↦ ap (λ (x : Server). x.server_name) same ∙ v.named k i f
        ]
  ]

  Registered-IsValid :
      (s s' : State os.World) (name : Bytes) → Registered s name s' → IsValid s → IsValid s'
  unfolding SocketServer.in_set
  Registered-IsValid s s' name r v = record {
    bounded = omega (arith, r.next_idx, r.room);
    indexed = rw (r.next_idx, r.map) (IsIndexed-insert s.server_idx name _ v.indexed);
    named = λ k i e. named_after s s' name k i r v e;
    registered = λ k i e. rw r.names (
        ground (
          arith,
          bytes_eq_iff name k,
          bytes_eq_iff k name,
          found_after s s' name k i r e,
          v.registered k i,
        ));
  }

  -- Every start that returns keeps the invariant: distinct names have distinct indices below
  -- `server_idx`, which is at most 1024, and each stands for the server that was made with that name.
  pub multisim_server_start-IsValid :
      (fuel : ℕ) (s : State os.World) (name : Bytes) (q : ℕ × State os.World)
      → IsValid s
      → multisim_server_start os fuel s name ≡ returned q
      → IsValid q.1
  multisim_server_start-IsValid fuel s name q v e =
      Registered-IsValid s q.1 name (multisim_server_start-Registered fuel s name q e).1 v

  multisim_server_start_full :
      (fuel : ℕ) (s : State os.World) (name : Bytes)
      → server_max ≤ s.server_idx
      → multisim_server_start os fuel s name ≡ aborted
  unfolding multisim_server_start
  multisim_server_start_full fuel s name full =
      let no_room : ltb s.server_idx server_max ≡ false = ground arith in rw no_room
