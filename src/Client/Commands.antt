-- ===== src/Client/Commands.antt =====
-- The commands of src/client.c that print what the server answers.
use cileserver.Base.CString.{Bytes, cstr, codes}
use cileserver.Base.Decimal.{print_int}
use cileserver.Base.Text.{newline}
use cileserver.Base.{
  ℕ, zero, suc, ◌+◌, ◌-◌, ◌*◌, ◌/◌, List, [], ◌∷◌, ◌++◌, none, success, failure, not, ◌==◌,
  if◌then◌else◌, length, take, drop, replicate,
}
use cileserver.Client.Session.{Session, send, receive, print_line, login_first, login_again}
use cileserver.Client.{received, auth_required, failed}
use cileserver.FileOps.Operations.{FileInfo}
use cileserver.Protocol.State.{file_info_size}
use cileserver.Wire.{cmd_list, cmd_delete, cmd_mkdir}

module _ {Fs : Type 0} where
  -- `client_list_directory`, `client_delete_file` and `client_create_directory` are this, with
  -- their commands and ways to show the data; the call of itself after a login has the fuel.
  unfoldable pub client_command :
      ℕ → ℕ → Bytes → (ℕ → Bytes → Session Fs → Session Fs) → Session Fs → Session Fs
  client_command zero command path show s = s
  client_command (suc f) command path show s =
      let (rc, s1) = send (login_first s) command path none 0 in
      elim rc [
        | failure ↦ s1
        | success ↦
            let (response, s2) = receive s1 in
            elim response [
              | received data_size bytes ↦ show data_size bytes s2
              | failed ↦ s2
              | auth_required ↦ client_command f command path show (login_again s2)
            ]
      ]

  -- `buffer[data_size] = '\0'; printf("%s\n", buffer);`
  unfoldable pub show_message : ℕ → Bytes → Session Fs → Session Fs
  show_message data_size bytes s = print_line (cstr bytes) s

  unfoldable pub client_delete_file : ℕ → Session Fs → Bytes → Session Fs
  client_delete_file f s path = client_command f cmd_delete path show_message s

  unfoldable pub client_create_directory : ℕ → Session Fs → Bytes → Session Fs
  client_create_directory f s path = client_command f cmd_mkdir path show_message s

-- An integer in the byte order of the machine.
unfoldable pub from_little_endian : Bytes → ℕ
from_little_endian [] = 0
from_little_endian (b ∷ bs) = b + 256 * from_little_endian bs

-- The `file_info_t` at an address.
unfoldable pub decode_info : Bytes → FileInfo
decode_info bytes = record {
  name = cstr bytes;
  size = from_little_endian (take 8 (drop 256 bytes));
  is_directory = not (from_little_endian (take 4 (drop 264 bytes)) == 0);
  modified_time = from_little_endian (take 8 (drop 272 bytes));
}

-- `entries[0]` to `entries[num_entries - 1]`
unfoldable pub decode_infos : ℕ → Bytes → List FileInfo
decode_infos zero bytes = []
decode_infos (suc n) bytes = decode_info bytes ∷ decode_infos n (drop file_info_size bytes)

-- `num_entries`
unfoldable pub num_entries : ℕ → ℕ
num_entries data_size = data_size / file_info_size

-- `%-30s` and the like
unfoldable pub left_justified : ℕ → Bytes → Bytes
left_justified width text = text ++ replicate (width - length text) b' '

abbrev table_head : Bytes
table_head =
    left_justified 30 (codes "Name")
    ++ (codes " "
        ++ (left_justified 10 (codes "Size")
            ++ (codes " "
                ++ (left_justified 20 (codes "Type")
                    ++ newline ∷ (replicate 60 b'-' ++ newline ∷ [])))))

-- `format_size` is `%zu` and `format_time` is `localtime` with `strftime`: what libc prints.
module _ (format_size format_time : ℕ → Bytes) where
  unfoldable pub print_row : FileInfo → Bytes
  print_row info =
      left_justified 30 info.name
      ++ (codes " "
          ++ (left_justified 10 (format_size info.size)
              ++ (codes " "
                  ++ (left_justified 20
                        (if info.is_directory then codes "Directory" else codes "File")
                      ++ (codes " " ++ (format_time info.modified_time ++ newline ∷ []))))))

  unfoldable pub print_rows : List FileInfo → Bytes
  print_rows [] = []
  print_rows (info ∷ infos) = print_row info ++ print_rows infos

  unfoldable pub print_listing : List FileInfo → Bytes
  print_listing infos =
      codes "Directory contents ("
      ++ (print_int (length infos)
          ++ (codes " entries):" ++ newline ∷ (table_head ++ print_rows infos)))

  unfoldable pub show_listing : {Fs : Type 0} → ℕ → Bytes → Session Fs → Session Fs
  show_listing data_size bytes s = record s {
    stdout = s.stdout ++ print_listing (decode_infos (num_entries data_size) bytes);
  }

  unfoldable pub client_list_directory : {Fs : Type 0} → ℕ → Session Fs → Bytes → Session Fs
  client_list_directory f s path = client_command f cmd_list path show_listing s
