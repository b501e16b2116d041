-- ===== src/Tests/Data.antt =====
-- An environment with a small compressor, and messages under it.
use cosnet.Prelude.{
  ℕ, zero, suc, ◌≡◌, refl, ◌&&◌, some, [], ◌∷◌, Result, ok, err, ◌==◌, if◌then◌else◌, arith, eof,
  Bool-cases, inl, inr,
}
use cosnet.Prelude.Int.{ℤ, pos, negsuc}
use cosnet.Prelude.Bytes.{Bytes, codes, big_endian}
use cosnet.Message.Flag
use cosnet.Message.Magic.{Magic, magic_type_path, magic_type_code, json}
use cosnet.Message.Magic
use cosnet.Message.Env.{Env, default_options}
use cosnet.Message.Object.{Message}
use cosnet.Message.Transfer.Sendable.{IsSendable}

-- Three equal bytes at the start become one, behind a mark.
unfoldable pub squeeze : Bytes → Bytes
squeeze (a ∷ b ∷ c ∷ s) = if a == b && b == c then 1 ∷ a ∷ s else 0 ∷ a ∷ b ∷ c ∷ s
squeeze s = 0 ∷ s

unfoldable pub unsqueeze : Bytes → Result Bytes
unsqueeze (zero ∷ s) = ok s
unsqueeze (suc n ∷ a ∷ s) = ok (a ∷ a ∷ a ∷ s)
unsqueeze s = err eof

-- Messages above `limit` bytes are compressed; code 7 stands for the path "ab".
abbrev pub test_env : ℤ → Env ℕ
test_env limit = record {
  options = record default_options { auto_compress_size = limit };
  magics = Magic.default_magics;
  transform = record { path = λ c. ok (codes "ab"); code = λ p. ok (pos 7) };
  encode = λ b v. ok (v ∷ []);
  unmarshal = λ b s. elim s [ [] ↦ err eof | c ∷ s' ↦ ok c ];
  gzip = squeeze;
  gunzip = unsqueeze;
  grown = λ b. [];
}

pub squeeze_lossless : (b : Bytes) → unsqueeze (squeeze b) ≡ ok b
unfolding squeeze unsqueeze
squeeze_lossless [] = refl
squeeze_lossless (a ∷ []) = refl
squeeze_lossless (a ∷ b ∷ []) = refl
squeeze_lossless (a ∷ b ∷ c ∷ s) = elim (Bool-cases (a == b && b == c)) [
  | inl e ↦ ground (arith, e)
  | inr e ↦ rw e refl
]

abbrev pub path_magic : Magic
path_magic = record { key = 0xf0; type = magic_type_path; binder = some json; binary = big_endian }

abbrev pub code_magic : Magic
code_magic = record { key = 0xf1; type = magic_type_code; binder = some json; binary = big_endian }

abbrev pub four_bytes : Message
four_bytes = record {
  head = record { magic = 0xf0; flag = 0; size = pos 4; index = negsuc 4 };
  code = pos 0;
  bytes = record { content = 7 ∷ 7 ∷ 7 ∷ 7 ∷ []; spare = [] };
}

pub four_bytes-IsSendable : (limit : ℤ) → IsSendable (test_env limit) path_magic four_bytes
unfolding Magic.get Magic.default_magics Magic.register Magic.has default_options Flag.has
four_bytes-IsSendable limit = record {
  known = refl;
  flag_byte = omega arith;
  plain = refl;
  index_fits = omega arith;
  size_counts = refl;
  size_fits = omega arith;
  within_limit = refl;
}
