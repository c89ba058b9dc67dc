-- ===== src/Ssl/Examples.antt =====
-- A small library in the place of OpenSSL, tests, and the theorems at concrete inputs.
use http.Prelude.{
  sym, ◌<◌, ◌≡◌, ◌⊎◌, refl, ap, Bool, true, false, List, [], ◌∷◌, ◌++◌, Option, none, some, arith,
  length, take, drop,
}
use http.Std.Text.{Text, codes}
use http.Http.Context.{new_context}
use http.Http.Server.{shutdown}
use http.Router.{no_routes}
use http.Ssl.{OpenSsl, handshake, established, new_config, error_ssl}
use http.Ssl.Context.{
  initialize, prepare, load_certificates, load_chain, setup_protocol, setup_session_cache,
}
use http.Ssl.Connection.{
  Tls, handle_handshake, handle_error, get_last_error, send_data, start_handshake,
  new_ssl_connection, with_bios,
}
use http.Ssl.Connection.Errors.{handle_handshake-handle_error}
use http.Ssl.Connection.Sending.{BioLaws, bytes_of, send_data_lem}
use http.Ssl.Server.{Peer, encrypted, on_connection, opened, receive}
use http.Ssl.Server.Unanswered.{ReadLaws, receive_unanswered}

-- The messages to be decrypted, the bytes in the write BIO, and whether the handshake is over.
record Toy : Type 0 where
  messages : List Text
  outgoing : Text
  finished : Bool

abbrev read_toy : List Text → Toy → Option Text × Toy
read_toy [] l = (none, l)
read_toy (m ∷ ms) l = (some m, record l { messages = ms })

abbrev toy : OpenSsl Toy
toy = record {
  Ctx = Unit {0};
  Ssl = Unit {0};
  Bio = Unit {0};
  ctx_new = λ l. (some tt, l);
  ctx_free = λ c l. l;
  ctx_set_options = λ c o l. l;
  ctx_use_certificate_file = λ c f l. (true, l);
  ctx_use_private_key_file = λ c f l. (true, l);
  ctx_check_private_key = λ c l. (true, l);
  ctx_use_certificate_chain_file = λ c f l. (true, l);
  ctx_set_cipher_list = λ c s l. (true, l);
  ctx_set_session_cache_mode = λ c l. l;
  ctx_sess_set_cache_size = λ c n l. l;
  ctx_set_timeout = λ c n l. l;
  ssl_new = λ c l. (some tt, l);
  ssl_free = λ s l. l;
  bio_new = λ l. (some tt, l);
  set_bio = λ s r w l. l;
  set_accept_state = λ s l. l;
  set_moving_write_buffer = λ s l. l;
  set_partial_write = λ s l. l;
  do_handshake = λ s l. (l.finished, l);
  get_error = λ s l. error_ssl;
  write = λ s t l. (true, record l { outgoing = l.outgoing ++ t });
  read = λ s n l. read_toy l.messages l;
  bio_pending = λ b l. length l.outgoing;
  bio_write = λ b t l. l;
  bio_read = λ b n l. (some (take n l.outgoing), record l { outgoing = drop n l.outgoing });
}

toy-BioLaws : BioLaws toy
toy-BioLaws = record {
  content = λ b l. l.outgoing;
  pending_lem = λ b l. refl;
  read_lem = λ b n l p h. (refl, refl);
}

read_toy_lem :
    (ms : List Text) (l l' : Toy) (d : Text)
    → ms ≡ l.messages
    → read_toy ms l ≡ (some d, l')
    → length l'.messages < length l.messages
read_toy_lem [] l l' d h e = absurd (cc (ap (λ r. r.0) e))
read_toy_lem (m ∷ ms) l l' d h e =
    let shorter : l'.messages ≡ ms = sym (ap (λ r. r.1.messages) e) in
    omega (arith, ap length h, ap length shorter)

toy-ReadLaws : ReadLaws toy
toy-ReadLaws = record {
  held_bytes = λ l. length l.messages;
  read_lem = λ s n l l' d e. read_toy_lem l.messages l l' d refl e;
}

abbrev fresh_lib : Toy
fresh_lib = record { messages = codes "GET /" ∷ codes "s/a" ∷ []; outgoing = []; finished = true }

abbrev shaken : Tls (Unit {0}) (Unit {0}) Toy
shaken = record {
  connection = record {
    ssl = tt;
    state = established;
    read_bio = tt;
    write_bio = tt;
    read_buffer = [];
    write_buffer = [];
    decrypted_buffer = [];
  };
  lib = fresh_lib;
  effects = [];
}

abbrev peer : Peer (Unit {0})
peer = record { context = new_context; world = tt; crashed = false }

on_connection_test : on_connection toy true (some tt) fresh_lib ≡ encrypted shaken
unfolding on_connection opened new_ssl_connection with_bios start_handshake handle_handshake
on_connection_test = refl

initialize_test : initialize toy new_config fresh_lib ≡ (true, some tt, fresh_lib)
unfolding initialize prepare load_certificates load_chain setup_protocol setup_session_cache
initialize_test = refl

receive_unanswered_example :
    (b : Text) × (u : Tls (Unit {0}) (Unit {0}) Toy) × (receive toy {Regex = Unit {0}}
        {W = Unit {0}}
        (λ e t. none)
        no_routes
        []
        5
        2
        (codes "abc")
        (shaken, peer)
      ≡ some (b, u, peer))
    × (u.connection.decrypted_buffer ≡ [])
    × ((u.effects ≡ []) ⊎ (u.effects ≡ shutdown ∷ []))
unfolding toy-ReadLaws
receive_unanswered_example =
    receive_unanswered toy (λ e t. none) no_routes [] 5 toy-ReadLaws 2 (codes "abc") shaken peer
      refl (omega arith)

send_data_lem_example :
    ((send_data toy 2 (codes "hi") shaken).lib.outgoing ≡ [])
    × (bytes_of (send_data toy 2 (codes "hi") shaken).effects ≡ codes "hi")
unfolding toy-BioLaws
send_data_lem_example =
    send_data_lem toy toy-BioLaws 2 (codes "hi") shaken (record fresh_lib { outgoing = codes "hi" })
      refl refl (omega arith)

abbrev refused : Tls (Unit {0}) (Unit {0}) Toy
refused = record shaken {
  connection = record (shaken.connection) { state = handshake };
  lib = record fresh_lib { finished = false };
}

handle_handshake-handle_error_example :
    ((handle_handshake toy refused).effects
      ≡ (handle_error toy (get_last_error toy refused) refused).effects)
    × ((handle_handshake toy refused).connection ≡ refused.connection)
handle_handshake-handle_error_example =
    handle_handshake-handle_error toy refused refused.lib refl λ e. cc e
