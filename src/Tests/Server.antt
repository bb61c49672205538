-- ===== src/Tests/Server.antt =====
-- fs/serv.c on a server with two descriptor pages in use.
use os_challenge_sudo_shell.Base.{
  ◌≡◌, ℕ, ◌+◌, ◌*◌, refl, ltb, true, false, none, some, [], ◌∷◌, if◌then◌else◌, Returns, Holds,
}
use os_challenge_sudo_shell.Fs.{Fs}
use os_challenge_sudo_shell.Serve.{
  Server, Request, open_alloc, serve_request, serve, serve_open, maxopen, fileva,
}
use os_challenge_sudo_shell.Serve.Opens.{Given, open_alloc-Given}
use os_challenge_sudo_shell.Serve.Answers.{
  Turn, addressees, askers, serve_request-Turn, serve-askers,
}
use os_challenge_sudo_shell.Serve.Descriptor.{Handed, Opened, serve_open-open_lookup}

abbrev no_files : Fs
no_files = record {
  super = some 40;
  bitmap_read = true;
  mapped = λ b. false;
  dirty = λ b. false;
  cache = λ b i. 0;
  disk = λ b i. 0;
  room = 3;
}

abbrev server : Server
server = record {
  fs = no_files;
  opentab = λ i. record { o_file = none; o_fileid = i; o_mode = 0; o_ff = fileva + i * 4096 };
  filefd =
      λ a. record { fd_dev_id = 0; fd_offset = 0; fd_omode = 0; f_fileid = 0; f_file = λ k. 0 };
  sent = [];
  reqva = false;
  refused = λ rs e. false;
}

-- Clients have the first two files open.
abbrev two_open : ℕ → ℕ
two_open a = if ltb a (fileva + 8192) then 2 else 0

abbrev request : Request
request = record {
  whom = 2049;
  req = 0;
  perm = 128;
  page = some (record { path = 47 ∷ []; mode = 0; fileid = 0; offset = 0 });
  pageref = two_open;
}

open_alloc-Given_example : Returns (open_alloc two_open server) (Given two_open maxopen 0 server)
open_alloc-Given_example = open_alloc-Given two_open server

serve_request-Turn_example : Holds (serve_request request server) (λ _ t. Turn request server t)
serve_request-Turn_example = serve_request-Turn request server

serve-askers_example :
    Holds
      (serve (request ∷ request ∷ []) server)
      (λ _ t. addressees t ≡ askers (request ∷ request ∷ []) (addressees server))
serve-askers_example = serve-askers (request ∷ request ∷ []) server

serve_open-open_lookup_example :
    Holds
      (serve_open two_open 2049
        (record { path = 47 ∷ []; mode = 0; fileid = 0; offset = 0 })
        server)
      (λ _ t.
        Handed
          (λ a. 2)
          2049
          (Opened (record { path = 47 ∷ []; mode = 0; fileid = 0; offset = 0 }) no_files)
          []
          t)
serve_open-open_lookup_example =
    serve_open-open_lookup (λ a. 2) 2049 two_open
      (record { path = 47 ∷ []; mode = 0; fileid = 0; offset = 0 }) server λ k l. refl
