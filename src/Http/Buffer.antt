-- ===== src/Http/Buffer.antt =====
-- muduo::net::Buffer, which the program uses and does not implement: its operations as a record,
-- and what its documentation says of them as laws.
use http.Prelude.{ℕ, ◌≤◌, ◌≡◌, refl, Option, [], ◌∷◌, ◌++◌, length, drop}
use http.Std.Text.{Text, find}

abbrev pub crlf : Text
crlf = 13 ∷ 10 ∷ []

pub record Buffer : Type 1 where
  pub Buf : Type 0
  -- the bytes from peek() on, readableBytes() many
  pub readable : Buf → Text
  -- findCRLF(), as an offset from peek(), or `none` for a null pointer
  pub find_crlf : Buf → Option ℕ
  -- retrieve(n), and retrieveUntil(peek() + n)
  pub retrieve : ℕ → Buf → Buf
  pub append : Text → Buf → Buf

pub record BufferLaws (api : Buffer) : Type 0 where
  pub find_crlf_lem : (b : api.Buf) → api.find_crlf b ≡ find crlf (api.readable b)
  pub readable-retrieve :
      (n : ℕ) (b : api.Buf)
      → n ≤ length (api.readable b)
      → api.readable (api.retrieve n b) ≡ drop n (api.readable b)
  pub readable-append :
      (s : Text) (b : api.Buf) → api.readable (api.append s b) ≡ api.readable b ++ s

-- Plain bytes are such a buffer.
abbrev pub bytes : Buffer
bytes = record {
  Buf = Text;
  readable = λ b. b;
  find_crlf = find crlf;
  retrieve = drop;
  append = λ s b. b ++ s;
}

pub bytes-BufferLaws : BufferLaws bytes
bytes-BufferLaws = record {
  find_crlf_lem = λ b. refl;
  readable-retrieve = λ n b h. refl;
  readable-append = λ s b. refl;
}
