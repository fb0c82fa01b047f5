-- ===== src/Contract/Signature/Pem.antt =====
-- The PEM files of the keys in pkg/contract/signature.go. crypto/x509 and encoding/pem are parameters.
use claim2kernel.Base.{Bytes, Option, String, if◌then◌else◌, inl, inr, none, some, ◌==◌, ◌⊎◌}
use claim2kernel.Base.Maybe.{◌>>=◌}
use claim2kernel.Contract.Value.{text}

-- What an X.509 parser gives: an Ed25519 key, or a key of another kind.
pub data AnyKey : Type 0 where
  ed25519 : Bytes → AnyKey
  other_key : AnyKey

pub record KeyFiles : Type 0 where
  -- MarshalPKCS8PrivateKey and ParsePKCS8PrivateKey
  pub marshal_private : Bytes → Option Bytes
  pub parse_private : Bytes → Option AnyKey
  -- MarshalPKIXPublicKey and ParsePKIXPublicKey
  pub marshal_public : Bytes → Option Bytes
  pub parse_public : Bytes → Option AnyKey
  -- pem.EncodeToMemory of a block, and pem.Decode: the first block's bytes and what follows it
  pub pem_encode : String → Bytes → String
  pub pem_decode : String → Option (Bytes × String)

pub data KeyError : Type 0 where
  not_one_block unparsed_key not_ed25519 : KeyError

module _ (files : KeyFiles) where
  -- MarshalPrivateKeyPEM
  unfoldable pub marshal_private_key_pem : Bytes → Option String
  marshal_private_key_pem key = do
    b ← files.marshal_private key
    some (files.pem_encode "PRIVATE KEY" b)

  -- MarshalPublicKeyPEM
  unfoldable pub marshal_public_key_pem : Bytes → Option String
  marshal_public_key_pem key = do
    b ← files.marshal_public key
    some (files.pem_encode "PUBLIC KEY" b)

  unfoldable pub require_ed25519 : Option AnyKey → KeyError ⊎ Bytes
  require_ed25519 none = inl unparsed_key
  require_ed25519 (some (ed25519 key)) = inr key
  require_ed25519 (some other_key) = inl not_ed25519

  unfoldable pub only_block : Option (Bytes × String) → Option Bytes
  only_block none = none
  only_block (some (block, rest)) = if rest == "" then some block else none

  -- ParsePrivateKeyPEM
  unfoldable pub parse_private_key_pem : String → KeyError ⊎ Bytes
  unfolding require_ed25519 only_block
  parse_private_key_pem text = elim (only_block (files.pem_decode text)) [
    | none ↦ inl not_one_block
    | some block ↦ require_ed25519 (files.parse_private block)
  ]

  -- ParsePublicKeyPEM
  unfoldable pub parse_public_key_pem : String → KeyError ⊎ Bytes
  unfolding require_ed25519 only_block
  parse_public_key_pem text = elim (only_block (files.pem_decode text)) [
    | none ↦ inl not_one_block
    | some block ↦ require_ed25519 (files.parse_public block)
  ]
