-- ===== src/Box/Config/Examples.antt =====
-- MP5/src/csiebox_client.c and MP5/src/csiebox_server.c: configuration files that are read.
use sp.Prelude.{◌≡◌, refl, pos, List, [], ◌∷◌, ◌++◌, none, some, replicate, arith}
use sp.Loser.Text.{Text, codes, same, strcmp, is_space, is_digit, value}
use sp.Loser.Text.Laws.{lacks}
use sp.Box.Sessions.{drop_last}
use sp.Box.Client.Paths.{string_in}
use sp.Box.Config.{getdelim, strncpy, read_value, next_config, all_accepted, read_loop, read_file}
use sp.Box.Config.Programs.{
  ClientArg, ServerArg, server_config, atoi, verdict, empty_client, client_parse_arg,
  server_parse_arg,
}
use sp.Box.Config.Lines.{Line, AreLines, put_lines, ends_key}
use sp.Box.Config.RoundTrip.{
  has_key, AreOnce, value_of, GivesAll, strings_of, client_parse_arg-put_lines,
}

abbrev line : Text → Text → Line
line key val = record { key = key; val = val }

abbrev settings : List Line
settings =
    line (codes "passwd") (codes "b=c")
    ∷ line (codes "path") (codes "/tmp/box")
    ∷ line (codes "name") (codes "linux1")
    ∷ line (codes "lang") []
    ∷ line (codes "server") (codes "csie")
    ∷ line (codes "user") (codes "ann")
    ∷ []

abbrev wanted : ClientArg
wanted = record {
  name = codes "linux1";
  server = codes "csie";
  user = codes "ann";
  passwd = codes "b=c";
  path = codes "/tmp/box";
}

settings-AreLines : AreLines settings
unfolding lacks ends_key
settings-AreLines = ground arith

settings-AreOnce : AreOnce settings
unfolding has_key same strcmp
settings-AreOnce = ground arith

settings-GivesAll : GivesAll settings 64 wanted
unfolding value_of lacks same strcmp
settings-GivesAll = ground arith

client_parse_arg-put_lines_example :
    (arg : ClientArg) × (client_parse_arg 2 (some (put_lines settings)) (empty_client 64)
      ≡ some (1, arg))
    × (strings_of arg ≡ wanted)
client_parse_arg-put_lines_example =
    client_parse_arg-put_lines 64 settings wanted settings-AreLines settings-AreOnce
      settings-GivesAll

abbrev server_zeros : ServerArg
server_zeros = record {
  path = replicate 4 0;
  account_path = replicate 4 0;
  thread = pos 0;
  run_path = replicate 4 0;
}

abbrev newline : Text
newline = b'\n' ∷ []

-- A value as long as its buffer is taken, without its end; `run_path` may be missing.
full_server_config :
    server_parse_arg 3
      (some (
        codes "path=/srv"
        ++ (newline ++ (codes "thread= 12x" ++ (newline ++ (codes "account_path=a" ++ newline))))))
      server_zeros
    ≡ some (
      2,
      record server_zeros {
        path = codes "/srv";
        account_path = b'a' ∷ replicate 3 0;
        thread = pos 12;
      },
    )
unfolding server_parse_arg server_config verdict read_file read_loop next_config getdelim read_value
    drop_last string_in same strcmp strncpy atoi is_space is_digit value all_accepted
full_server_config = refl

-- Without a newline at its end the last line loses a letter.
cut_server_config :
    server_parse_arg 2 (some (codes "path=/srv")) server_zeros
    ≡ some (0, record server_zeros { path = codes "/sr" ++ 0 ∷ [] })
unfolding server_parse_arg server_config verdict read_file read_loop next_config getdelim read_value
    drop_last string_in same strcmp strncpy all_accepted
cut_server_config = refl

-- A later, shorter value leaves the end of the one before.
twice_server_config :
    server_parse_arg 2
      (some (codes "path=/srv" ++ (newline ++ (codes "path=ab" ++ newline))))
      server_zeros
    ≡ some (0, record server_zeros { path = codes "abrv" })
unfolding server_parse_arg server_config verdict read_file read_loop next_config getdelim read_value
    drop_last string_in same strcmp strncpy all_accepted
twice_server_config = refl

-- When nothing follows the key, the write is in front of `val`.
no_value_config : client_parse_arg 2 (some (codes "name=")) (empty_client 4) ≡ none
unfolding client_parse_arg verdict read_file read_loop next_config getdelim read_value drop_last
    string_in
no_value_config = refl

no_arguments : client_parse_arg 1 (some (codes "name=")) (empty_client 4) ≡ some (0, empty_client 4)
unfolding client_parse_arg
no_arguments = refl
