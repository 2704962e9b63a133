-- ===== src/Lib.antt =====
-- Leafy, a Bitcoin wallet with two mnemonics: the Go library of bip_44.go, leafy.go, script.go,
-- signer.go, wallet.go and mobile_leafy.go.
--
-- An address needs the keys of both mnemonics: the second key is tweaked by a hash of the first, and
-- then by the root of a script tree whose only leaf lets the first key spend once a timelock has
-- passed. A wallet with both mnemonics signs by the key path; with the first mnemonic and a descriptor
-- of the second it signs by the leaf.
--
-- The parts, each in the file of its name with its proofs in the folder beside it:
--   Bip44         bip_44.go: path items, keys, siblings, descriptors
--   Script        script.go: inscriptions, timelocks, the builder of a script tree
--   Signer        signer.go: InMemorySigner
--   Wallet        wallet.go, and getBip44Key, GetDescriptor and GenerateMnemonic of leafy.go
--   Address       leafy.go: GetAddresses and the createTweakedAddress functions
--   SigningKeys   leafy.go: findSigningKeys and findSigningRecoveryKeys
--   Transaction   leafy.go: CreateTransaction; Plan says over plain numbers what it comes to
--   Signing       leafy.go: CreateAndSignTransaction and CreateAndSignRecoveryTransaction
--   Social        leafy.go: the ephemeral RSA keys and what is encrypted with them
--   Mobile        mobile_leafy.go: the same calls for gomobile, with JSON for results
-- Wire holds the structs that they share (script.go, leafy.go), Hex and Text what they use of
-- encoding/hex, strings and strconv, and Prelude the Go notions: Result for a value, an error or a
-- panic; Int for int64 with wrap-around; Maps for map[string]V as an association list. A function keeps
-- its Go name in snake case; a method of an interface is a function by clauses on its implementations.
--
-- Signing calls Transaction, then SigningKeys for the keys of the coins' addresses, which makes the
-- addresses anew by Address from the keys of Wallet and Bip44, and signs by Signer.
--
-- Code of other packages is a parameter: Keychain (hdkeychain, btcec), Txscript (txscript, schnorr,
-- btcutil), Chain (wire, blockchain), FloatOps (the float64 operations of the fee), Library for all of
-- these with BIP-39 and SHA-256, Rsa and Encoding (crypto/rsa, encoding/json). They are arbitrary
-- functions; a theorem that needs more of them names it among its hypotheses. A pointer that may be nil
-- is an Option, and its use a panic.
--
-- Loops are structural recursion where they range over a list. On fuel: a uint8 window has 256 rounds,
-- which a uint8 counter cannot exceed before its limit; an inscription has a round for each byte at
-- most, and a round takes one at least; a uint32 has ten digits.
--
-- Not modelled: randomness, JSON and RSA themselves, which are arguments; accessors that only return a
-- field; the frontend, the website and the scripts.
pub mod Prelude
pub mod Hex
pub mod Text
pub mod Bip44
pub mod Wire
pub mod Txscript
pub mod Script
pub mod Signer
pub mod Library
pub mod Wallet
pub mod Address
pub mod SigningKeys
pub mod Transaction
pub mod Signing
pub mod Social
pub mod Mobile
