-- ===== src/Tests/Client.antt =====
-- The client at concrete inputs.
use cileserver.Base.CString.{codes}
use cileserver.Base.{ℕ, ◌++◌, ◌≡◌, refl, [], ◌∷◌}
use cileserver.Client.Commands.{client_command, show_message}
use cileserver.Client.Prompts.{client_command-prompts}
use cileserver.Client.Session.{Session, is_set}
use cileserver.Net.{Conn, arrived}
use cileserver.Protocol.Responses.{whole_response}
use cileserver.Wire.{cmd_delete, resp_ok, resp_auth_required}

abbrev new_conn : Conn
new_conn = record { inbox = []; outbox = []; sent = [] }

-- A client without credentials, which a server asks for a login.
abbrev asked : Session ℕ
asked = record {
  conn = record {
    inbox =
        arrived (whole_response resp_auth_required (codes "Authentication required") 23)
        ∷ arrived (whole_response resp_ok (codes "ok") 2)
        ∷ [];
    outbox = [];
    sent = [];
  };
  fs = 0;
  username = [];
  password = [];
  stdin = codes "carol" ++ 10 ∷ (codes "secret" ++ 10 ∷ []);
  stack = [];
  stdout = [];
}

client_command-prompts_example :
    (client_command 9 cmd_delete (codes "a") show_message asked).stdout ≡ []
unfolding is_set
client_command-prompts_example =
    client_command-prompts 9 cmd_delete (codes "a") show_message asked
      (arrived (whole_response resp_ok (codes "ok") 2) ∷ []) refl refl
