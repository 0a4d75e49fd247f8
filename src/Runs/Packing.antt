-- ===== src/Runs/Packing.antt =====
-- A slate and a slatepack written, encrypted, armored and read back.
use vcash_wallet.Base.{
  All, ◌≢◌, filter, not, ◌<◌, ◌≤◌, ◌^◌, ◌≡◌, refl, subst, true, false, none, some, List, [], ◌∷◌,
  ◌++◌, arith, length, ok, ◌>>=◌,
}
use vcash_wallet.SlateVersions.Wire.{Bytes}
use vcash_wallet.SlateVersions.V4.{SlateStateV4, SlateV4}
use vcash_wallet.SlateVersions.V4Bin.Slate.{put_slate, get_slate}
use vcash_wallet.SlateVersions.V4Bin.RoundTrip.{
  FitsCount, FitsSlate, normal_slate, get_slate-put_slate,
}
use vcash_wallet.Slatepack.Types.{SlatepackAddress, Slatepack}
use vcash_wallet.Slatepack.Write.{put_address, put_slatepack, put_meta}
use vcash_wallet.Slatepack.Read.{get_slatepack}
use vcash_wallet.Slatepack.Addresses.{Sendable}
use vcash_wallet.Slatepack.RoundTrip.{
  received, FitsSlatepack, put_future, get_slatepack-put_slatepack, get_slatepack-put_future,
}
use vcash_wallet.Slatepack.Crypt.{try_encrypt_payload, try_decrypt_payload}
use vcash_wallet.Slatepack.Sealed.{opened, try_decrypt_payload-try_encrypt_payload}
use vcash_wallet.Slatepack.Armor.{is_whitespace, generate_check, armor, decode}
use vcash_wallet.Slatepack.Framing.{decode-armor}
use vcash_wallet.Slatepack.Integrity.{decode-IsChecked}
use vcash_wallet.Slatepack.Packer.{
  SlatepackerArgs, deser_slatepack, create_slatepack, armor_slatepack, get_packed_slate,
}
use vcash_wallet.Slatepack.Delivery.{get_packed_slate-plain}
use vcash_wallet.Runs.Codecs.{zeros, wire}
use vcash_wallet.Runs.Ciphers.{bech32, age_keys, base58, libraries}

-- An invoice with an input, an output of unknown features, a lock height and a payment proof.
abbrev slate : SlateV4
slate = record {
  ver = record { version = 4; block_header_version = 3 };
  id = 77;
  sta = SlateStateV4.invoice2;
  off = 5;
  num_parts = 3;
  amt = 60000000000;
  token_type = some 9;
  fee = 7;
  feat = 2;
  token_feat = 0;
  ttl = 100;
  sigs =
      record { xs = 11; nonce = 12; part = some 13 }
      ∷ record { xs = 21; nonce = 22; part = none }
      ∷ [];
  coms = some (record { f = 1; c = 31; p = none } ∷ record { f = 5; c = 32; p = some 33 } ∷ []);
  token_coms = some (record { k = 9; f = 99; c = 41; p = some 42 } ∷ []);
  proof = some (record { saddr = 51; raddr = 52; rsig = some 53 });
  feat_args = some (record { lock_hgt = 1234 });
  token_feat_args = some (record { lock_hgt = 1 });
}

pub FitsCount-some : {A : Type 0} (xs : List A) → length xs < 2 ^ 16 → FitsCount (some xs)
FitsCount-some xs h ys e = let same : xs ≡ ys = cc in subst (λ z. length z < 2 ^ 16) same h

slate-Fits : FitsSlate slate
slate-Fits = (
  omega arith,
  omega arith,
  (omega arith, omega arith, omega arith, omega arith, omega arith, omega arith),
  omega arith,
  FitsCount-some _ (omega arith),
  FitsCount-some _ (omega arith),
  omega arith,
  omega arith,
)

get_slate-put_slate_example :
    get_slate wire (put_slate wire slate (1 ∷ [])) ≡ ok (normal_slate slate, 1 ∷ [])
get_slate-put_slate_example = get_slate-put_slate wire slate slate-Fits (1 ∷ [])

-- The normal form of the slate: the unknown features are plain, the token has no arguments.
normal_slate_run : normal_slate slate ≡ record slate {
  coms = some (record { f = 1; c = 31; p = none } ∷ record { f = 0; c = 32; p = some 33 } ∷ []);
  token_feat_args = none;
}
normal_slate_run = refl

-- "vcash" and a key.
abbrev pub alice : SlatepackAddress
alice = record { hrp = 118 ∷ 99 ∷ 97 ∷ 115 ∷ 104 ∷ []; pub_key = 8 }

abbrev pub bob : SlatepackAddress
bob = record { hrp = 118 ∷ 99 ∷ 97 ∷ 115 ∷ 104 ∷ []; pub_key = 5 }

pub alice-Sendable : Sendable wire bech32 alice
alice-Sendable = (_, refl, omega arith, (refl, (refl, (refl, (refl, (refl, tt))))))

bob-Sendable : Sendable wire bech32 bob
bob-Sendable = (_, refl, omega arith, (refl, (refl, (refl, (refl, (refl, tt))))))

abbrev pack : Slatepack
pack = record {
  slatepack = record { major = 1; minor = 0 };
  mode = 0;
  sender = some alice;
  encrypted_meta = record { sender = none; recipients = bob ∷ alice ∷ [] };
  payload = 1 ∷ 2 ∷ 3 ∷ [];
  future_test_mode = false;
}

pack-Fits : FitsSlatepack wire bech32 pack
pack-Fits = (omega arith, omega arith, omega arith, alice-Sendable, omega arith)

get_slatepack-put_slatepack_example :
    (put_slatepack wire bech32 pack >>= λ p. get_slatepack wire bech32 (p (4 ∷ [])))
    ≡ ok (received pack, 4 ∷ [])
get_slatepack-put_slatepack_example =
    get_slatepack-put_slatepack wire bech32 pack pack-Fits (4 ∷ [])

-- A flag that is not known, and five bytes more.
get_slatepack-put_future_example :
    (put_future wire bech32 pack 17 (9 ∷ 8 ∷ 7 ∷ 6 ∷ 5 ∷ []) >>= λ p.
    get_slatepack wire bech32 (p []))
    ≡ ok (received pack, [])
get_slatepack-put_future_example =
    get_slatepack-put_future wire bech32 pack pack-Fits 17 (9 ∷ 8 ∷ 7 ∷ 6 ∷ 5 ∷ []) [] (omega arith)
      refl (omega arith, (omega arith, (omega arith, (omega arith, (omega arith, tt)))))
      (omega arith)

try_decrypt_payload-try_encrypt_payload_example :
    (try_encrypt_payload wire bech32 age_keys [] (alice ∷ bob ∷ []) pack
      >>= try_decrypt_payload wire bech32 age_keys (some 5))
    ≡ ok (opened wire bech32 age_keys pack)
try_decrypt_payload-try_encrypt_payload_example =
    try_decrypt_payload-try_encrypt_payload wire bech32 age_keys pack alice (bob ∷ []) (8 ∷ 5 ∷ [])
      5 [] (alice-Sendable, (bob-Sendable, (alice-Sendable, tt)), omega arith) refl refl (λ e. cc)
      tt

decode-armor_example : decode base58 (armor base58 (1 ∷ 0 ∷ 2 ∷ [])) ≡ ok (1 ∷ 0 ∷ 2 ∷ [])
decode-armor_example = decode-armor base58 (1 ∷ 0 ∷ 2 ∷ [])

put_slate-short : length (put_slate wire slate []) ≤ 100000
unfolding put_slate
put_slate-short = omega arith

get_packed_slate-plain_example :
    (create_slatepack libraries
        (record { sender = some alice; recipients = []; dec_key = none })
        slate
      >>= λ sp. armor_slatepack libraries sp >>= λ text.
          deser_slatepack libraries
            (record { sender = none; recipients = []; dec_key = none })
            text
            true
          >>= get_packed_slate libraries)
    ≡ ok (normal_slate slate)
get_packed_slate-plain_example =
    get_packed_slate-plain libraries (some alice) none
      (record { sender = none; recipients = []; dec_key = none }) slate slate-Fits alice-Sendable
      put_slate-short

decode-IsChecked_example :
    (header payload rest : Bytes) × (armor base58 (1 ∷ 0 ∷ 2 ∷ [])
      ≡ header ++ (46 ∷ (payload ++ (46 ∷ rest))))
    × All (λ x. x ≢ 46) header
    × All (λ x. x ≢ 46) payload
    × (base58.decode (filter (λ x. not (is_whitespace x)) payload)
        ≡ some (generate_check base58 (1 ∷ 0 ∷ 2 ∷ []) ++ (1 ∷ 0 ∷ 2 ∷ [])))
decode-IsChecked_example =
    decode-IsChecked base58 (armor base58 (1 ∷ 0 ∷ 2 ∷ [])) (1 ∷ 0 ∷ 2 ∷ []) decode-armor_example

abbrev pub to_bob : SlatepackerArgs
to_bob = record { sender = some alice; recipients = bob ∷ []; dec_key = none }

abbrev pub bob_reads : SlatepackerArgs
bob_reads = record { sender = none; recipients = []; dec_key = some 5 }

-- The slatepack for Bob: his key in front of the metadata with its length, and the slate.
abbrev pack_for_bob : Slatepack
pack_for_bob = record {
  slatepack = record { major = 1; minor = 0 };
  mode = 1;
  sender = none;
  encrypted_meta = record { sender = some alice; recipients = [] };
  payload =
      1
      ∷ 5
      ∷ 0
      ∷ 0
      ∷ 0
      ∷ 41
      ∷ 0
      ∷ 1
      ∷ 38
      ∷ 5
      ∷ 118
      ∷ 99
      ∷ 97
      ∷ 115
      ∷ 104
      ∷ 8
      ∷ (zeros 31 ++ put_slate wire slate []);
  future_test_mode = false;
}

pack_for_bob-created : create_slatepack libraries to_bob slate ≡ ok pack_for_bob
unfolding create_slatepack try_encrypt_payload put_meta put_address
pack_for_bob-created = refl
