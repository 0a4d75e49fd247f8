-- ===== src/Runs/Slates.antt =====
-- A slate that is sent in a slatepack and arrives.
use vcash_wallet.Base.{
  ◌≤◌, ◌≡◌, refl, subst, false, true, none, some, [], ◌∷◌, ◌++◌, arith, length, ok, ◌>>=◌,
}
use vcash_wallet.SlateVersions.V4Bin.Slate.{put_slate}
use vcash_wallet.SlateVersions.V4Bin.RoundTrip.{FitsSlate}
use vcash_wallet.Slate.Versions.{slate_to_v4, slate_of_v4}
use vcash_wallet.Slate.Versions.Kept.{TokensOf, HasOwnTokens, carried, slate_of_v4-slate_to_v4}
use vcash_wallet.Slatepack.Types.{Slatepack}
use vcash_wallet.Slatepack.Write.{put_address, put_meta}
use vcash_wallet.Slatepack.Crypt.{try_encrypt_payload}
use vcash_wallet.Slatepack.Packer.{deser_slatepack, create_slatepack, armor_slatepack}
use vcash_wallet.Slatepack.Slates.{pack_slate, unpack_slate, unpack_slate-pack_slate}
use vcash_wallet.Runs.Codecs.{zeros, wire}
use vcash_wallet.Runs.Ciphers.{libraries}
use vcash_wallet.Runs.Packing.{alice, to_bob, bob, bob_reads, FitsCount-some, alice-Sendable}
use vcash_wallet.Runs.Signing.{secp, transaction, signed_slate}

signed_slate-HasOwnTokens : HasOwnTokens signed_slate
signed_slate-HasOwnTokens t e =
    let same : transaction ≡ t = cc in subst (λ x. TokensOf none x.body) same (refl, refl)

slate_of_v4-slate_to_v4_example :
    slate_of_v4 secp 0 1 2 (slate_to_v4 signed_slate) ≡ carried secp 0 1 2 signed_slate
slate_of_v4-slate_to_v4_example =
    slate_of_v4-slate_to_v4 secp 0 1 2 signed_slate signed_slate-HasOwnTokens

signed_slate-Fits : FitsSlate (slate_to_v4 signed_slate)
unfolding slate_to_v4
signed_slate-Fits = (
  omega arith,
  omega arith,
  (omega arith, omega arith, omega arith, omega arith, omega arith, omega arith),
  omega arith,
  FitsCount-some _ (omega arith),
  FitsCount-some _ (omega arith),
  omega arith,
  omega arith,
)

abbrev slate_for_bob : Slatepack
slate_for_bob = record {
  slatepack = record { major = 1; minor = 0 };
  mode = 1;
  sender = none;
  encrypted_meta = record { sender = some alice; recipients = [] };
  payload =
      1
      ∷ 5
      ∷ 0
      ∷ 0
      ∷ 0
      ∷ 41
      ∷ 0
      ∷ 1
      ∷ 38
      ∷ 5
      ∷ 118
      ∷ 99
      ∷ 97
      ∷ 115
      ∷ 104
      ∷ 8
      ∷ (zeros 31 ++ put_slate wire (slate_to_v4 signed_slate) []);
  future_test_mode = false;
}

slate_for_bob-packed : pack_slate libraries to_bob signed_slate ≡ ok slate_for_bob
unfolding pack_slate create_slatepack try_encrypt_payload put_meta put_address
slate_for_bob-packed = refl

slate_for_bob-short : length slate_for_bob.payload ≤ 100000
unfolding put_slate slate_to_v4
slate_for_bob-short = omega arith

unpack_slate-pack_slate_example :
    (armor_slatepack libraries slate_for_bob >>= λ text.
    deser_slatepack libraries bob_reads text true >>= unpack_slate libraries secp 0 1 2)
    ≡ ok (carried secp 0 1 2 signed_slate)
unpack_slate-pack_slate_example =
    unpack_slate-pack_slate libraries secp 0 1 2 (some alice) bob [] none bob_reads (5 ∷ []) 5
      signed_slate slate_for_bob slate_for_bob-packed slate_for_bob-short signed_slate-Fits
      signed_slate-HasOwnTokens refl refl alice-Sendable refl refl refl
