-- ===== src/LanChatServer/Ports.antt =====
-- The port that the command line leaves (src/server/src/main.cpp).
use lan_chat_next.Prelude.{
  ℕ, ◌<◌, ◌≡◌, refl, String, Bool, true, false, List, [], ◌∷◌, ℤ, pos, negsuc, to_nat, codes, atoi,
  ◌==◌, string_eq, arith, if◌then◌else◌,
}
use lan_chat_next.LanChatServer.{
  Command, migrate_from, serve, bad_port, valid_port, read_arguments, command,
}

-- A server is started on a port from 1 to 65534 only.
abbrev pub HasPort : Command → Type 0
HasPort (serve port directory) = (0 < port) × (port < 65535)
HasPort (migrate_from directory path) = Unit {0}
HasPort bad_port = Unit {0}

valid_port_lem : (p : ℤ) → valid_port p ≡ true → (0 < to_nat p) × (to_nat p < 65535)
valid_port_lem (pos n) h = ground arith
valid_port_lem (negsuc n) h = cc

HasPort-if :
    (b : Bool) (x y : Command)
    → (b ≡ true → HasPort x)
    → (b ≡ false → HasPort y)
    → HasPort (if b then x else y)
HasPort-if true x y h k = h refl
HasPort-if false x y h k = k refl

read_arguments-HasPort :
    (port : ℕ) (directory : String) (arguments : List String)
    → 0 < port
    → port < 65535
    → HasPort (read_arguments port directory arguments)
unfolding read_arguments
read_arguments-HasPort port directory [] h k = (h, k)
read_arguments-HasPort port directory (flag ∷ []) h k = (h, k)
read_arguments-HasPort port directory (flag ∷ value ∷ rest) h k =
    let given = atoi (codes value) in
    let with_port = read_arguments (to_nat given) directory rest in
    let located = read_arguments port value rest in
    let other = read_arguments port directory (value ∷ rest) in
    HasPort-if (flag == "--migrate") (migrate_from directory value) _ (λ e. tt)
      λ e.
        HasPort-if (flag == "--port") (if valid_port given then with_port else bad_port) _
          (λ p.
            HasPort-if (valid_port given) with_port bad_port
              (λ v.
                read_arguments-HasPort (to_nat given) directory rest (valid_port_lem given v).0
                  (valid_port_lem given v).1)
              (λ v. tt))
          λ p.
            HasPort-if (flag == "--data") located other
              (λ d. read_arguments-HasPort port value rest h k)
              (λ d. read_arguments-HasPort port directory (value ∷ rest) h k)

-- Whatever the arguments are, a server that `main` starts listens on a port from 1 to 65534.
pub command-HasPort : (arguments : List String) → HasPort (command arguments)
unfolding command
command-HasPort arguments =
    read_arguments-HasPort 12346 "data" arguments (omega arith) (omega arith)
