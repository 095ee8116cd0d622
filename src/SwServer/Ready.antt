-- ===== src/SwServer/Ready.antt =====
-- A process of sw_server.cpp (example/sw_server/sw_client/read_write/src) whose channels `rw_cmd` and
-- `rw_rsp` are connected, and the calls that keep it so.
use multisim.Base.{ℕ, ◌≡◌, ◌≢◌, ◌∙◌, sym, ap, true, codes, some}
use multisim.Os.{Os}
use multisim.SocketIo.Stream.{IsStream}
use multisim.SocketIo.Separate.{IsSeparate}
use multisim.Names.{find}
use multisim.MultisimServer.{State}
use multisim.MultisimServer.Frame.{Apart}

module _ (os : Os) (stream : IsStream os) (sep : IsSeparate os stream) (ie ic ir a b : ℕ) where
  open sep use {is_open}

  -- The servers of the process have the indices `ie`, `ic` and `ir`; `a` is the connection of the
  -- commands and `b` that of the responses.
  pub record Ready (s : State os.World) : Type 0 where
    pub exit_index : find (codes "exit") s.server_name_to_idx ≡ some ie
    pub cmd_index : find (codes "rw_cmd") s.server_name_to_idx ≡ some ic
    pub rsp_index : find (codes "rw_rsp") s.server_name_to_idx ≡ some ir
    pub cmd_socket : s.sockets ic ≡ some a
    pub rsp_socket : s.sockets ir ≡ some b
    pub exit_not_cmd : s.sockets ie ≢ some a
    pub exit_not_rsp : s.sockets ie ≢ some b
    pub cmd_open : is_open s.world a ≡ true
    pub rsp_open : is_open s.world b ≡ true

  pub record Different : Type 0 where
    pub ec : ie ≢ ic
    pub er : ie ≢ ir
    pub cr : ic ≢ ir
    pub ab : a ≢ b

  module _ (d : Different) where
    -- The exit channel is apart from both.
    pub exit-Ready :
        (s s' : State os.World)
        → Ready s
        → Apart os stream sep a ie s s'
        → Apart os stream sep b ie s s'
        → Ready s'
    exit-Ready s s' h x y = record {
      exit_index = ap (find (codes "exit")) x.same_names ∙ h.exit_index;
      cmd_index = ap (find (codes "rw_cmd")) x.same_names ∙ h.cmd_index;
      rsp_index = ap (find (codes "rw_rsp")) x.same_names ∙ h.rsp_index;
      cmd_socket = x.same_sockets ic (λ e. d.ec (sym e)) ∙ h.cmd_socket;
      rsp_socket = x.same_sockets ir (λ e. d.er (sym e)) ∙ h.rsp_socket;
      exit_not_cmd = x.distinct;
      exit_not_rsp = y.distinct;
      cmd_open = x.kept.still_open;
      rsp_open = y.kept.still_open;
    }

    -- The channel of the commands is apart from the other two, and still has its client.
    pub cmd-Ready :
        (s s' : State os.World)
        → Ready s
        → Apart os stream sep b ic s s'
        → s'.sockets ic ≡ some a
        → is_open s'.world a ≡ true
        → Ready s'
    cmd-Ready s s' h y c o =
        let e = y.same_sockets ie d.ec in
        record {
          exit_index = ap (find (codes "exit")) y.same_names ∙ h.exit_index;
          cmd_index = ap (find (codes "rw_cmd")) y.same_names ∙ h.cmd_index;
          rsp_index = ap (find (codes "rw_rsp")) y.same_names ∙ h.rsp_index;
          cmd_socket = c;
          rsp_socket = y.same_sockets ir (λ q. d.cr (sym q)) ∙ h.rsp_socket;
          exit_not_cmd = λ q. h.exit_not_cmd (sym e ∙ q);
          exit_not_rsp = λ q. h.exit_not_rsp (sym e ∙ q);
          cmd_open = o;
          rsp_open = y.kept.still_open;
        }

    -- So is the channel of the responses.
    pub rsp-Ready :
        (s s' : State os.World)
        → Ready s
        → Apart os stream sep a ir s s'
        → s'.sockets ir ≡ some b
        → is_open s'.world b ≡ true
        → Ready s'
    rsp-Ready s s' h x c o =
        let e = x.same_sockets ie d.er in
        record {
          exit_index = ap (find (codes "exit")) x.same_names ∙ h.exit_index;
          cmd_index = ap (find (codes "rw_cmd")) x.same_names ∙ h.cmd_index;
          rsp_index = ap (find (codes "rw_rsp")) x.same_names ∙ h.rsp_index;
          cmd_socket = x.same_sockets ic d.cr ∙ h.cmd_socket;
          rsp_socket = c;
          exit_not_cmd = λ q. h.exit_not_cmd (sym e ∙ q);
          exit_not_rsp = λ q. h.exit_not_rsp (sym e ∙ q);
          cmd_open = x.kept.still_open;
          rsp_open = o;
        }
