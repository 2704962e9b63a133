-- ===== src/Bip44.antt =====
-- bip_44.go: BIP-44 keys. `Path` holds the items of a derivation path, `Key` the key and what it
-- reports, `Derive` how keys are made, `Descriptor` the text of a taproot descriptor both ways.
pub mod Path
pub mod Key
pub mod Derive
pub mod Descriptor
pub mod PathLaws
pub mod DeriveLaws
mod Tests
