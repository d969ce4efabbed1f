-- ===== src/Lib.antt =====
-- Sigryx: self-hosted key and signing infrastructure.
--
-- The program keeps the keys of wallets behind a vault. A vault is opened by N of N unseal keys, which
-- the secret store collects and hashes into the key that encrypts the seeds of the key roots; a seed
-- yields the private keys that sign transactions. Secrets live in memory that libsodium guards.
--
-- Fault: the errors of pkg/securemem, pkg/secretstore, pkg/cryptox and of the seal service.
-- SecureMem: pkg/securemem/secret.go and the regions of pkg/securemem/sodium_linux.go. A `*Secret` is
-- an index into a memory, so aliases see one secret. What libsodium answers is a parameter, one answer
-- for each call; SecureMem/Laws names the answers of a libsodium that never fails.
-- SecretStore: pkg/secretstore/store.go, a function for each method (SubmitUnsealKey is
-- submit_unseal_key, and so on). A method is one step: it holds the mutex while it reads and writes the
-- fields. The key hash, crypto/sha256, is a parameter. SecretStore/Invariant, Calls, Threshold, Cleanup
-- and Order hold the proofs, SecretStore/Tests the runs.
-- Cryptox: Seal, Open and RandomKey of pkg/cryptox (seal_payload, open_payload, random_key). AES-GCM and
-- crypto/rand are parameters; Cryptox/Payload names what their documentation promises.
-- Seal: internal/core/service/seal.go over its repository (internal/core/port/out/unseal_key_slot.go):
-- initialize, status and seal_vault in Seal, SubmitUnsealCredential in Seal/Submit. The table of slots is
-- part of the state, and any call of the database may fail. Seal/Credentials and Unseal follow the
-- credentials from their issue to the vault key, Consistent and Requests hold the invariant.
-- Scalar: validPrivateKey and addScalarsModN of pkg/hdwallet/hdwallet.go on lists of bytes, the loops as
-- recursions on the lists; Scalar/Bytewise and Sums say what they do to the numbers that the bytes write.
-- Derivation: the paths of pkg/hdwallet/hdwallet.go (NewPath, BIP44, ParsePath, String) on texts as lists of
-- code points; strconv.ParseUint and fmt's `%d` are parameters, which Derivation/Tests gives by functions.
-- Signature: the compact and the Ethereum form of a signature in pkg/hdwallet/signature.go and their parsers.
-- Rlp: the RLP codec of internal/adapter/out/blockchain/ethereum/transaction.go (rlpNode to
-- decodeRLPList). An `int` is 64 bits wide; where a Go slice expression or index would panic the model
-- answers `panic`. The decoder runs on fuel, the length of the input, and `stuck` is what it would
-- answer without fuel. intBytes makes eight rounds, one for each byte of its argument.
-- Hex and Keccak: the texts of quantities, addresses and bytes that the transactions read, with what they
-- use of math/big and encoding/hex, and keccak.go as a function on bytes.
-- Transaction: signTransaction and the functions it calls, in internal/adapter/out/blockchain/ethereum/
-- transaction.go; Transaction/Check holds verifyTransaction and its. SignDigest and VerifyDigestWithRecoveryID are
-- an interface (Signer, with the promises IsSigner), which Ecdsa/LowS fills.
-- Curve and Ecdsa: the arithmetic of secp256k1, SignDigest and the verifiers of pkg/hdwallet. ModInverse of
-- math/big is Euclid's algorithm on as much fuel as the modulus, which the falling remainders do not use up.
-- Ecdsa/Equation and Accepts hold the equations of ECDSA, over Curve/Inverse; Curve/Complete is about the fuel.
-- HMAC is a parameter; the two loops that wait for a usable nonce run on fuel of their own.
-- HdKey: DerivePrivateKey, masterKey and deriveChild of pkg/hdwallet/hdwallet.go over HMAC as a parameter.
-- Address: ethereumAddress of internal/adapter/out/blockchain/ethereum/adapter.go; the adapter itself is in Wallet.
-- Wallet: internal/core/service/wallet.go (create, in Wallet/Service) with withKeyRootSeed of key_root_seed.go, over the
-- tables and statements of internal/adapter/out/persistence/postgres/wallet_repository.go. Wallet/Index and Unique
-- follow the indexes that NextIndex hands out, Wallet/Created the wallets that Create returns.
-- KeyRoots: internal/core/service/key_root.go over internal/adapter/out/persistence/postgres/key_root_repository.go, on
-- the tables of Wallet.
-- Access: authorizeUser, authorizeService and Logout of internal/core/service/auth.go with ipAllowed and hasPermission of
-- access.go (Access/Authorize), and the statements on sessions of access_repository.go (Access/Sessions). net/netip, the
-- clock and the answers of the database are parameters; Access/Revoked follows a revoked session.
-- Retention: internal/core/service/audit_retention.go over the deletion statement of the migrations. The loop of
-- purgeClass runs on one more than the number of rows, since each full batch takes rows off the table.
-- An int has 64 bits; AddDate, the clocks and the times that the database takes are parameters (Retention/Calendar).
-- Base: lists, bytes, texts, results and Boolean tests that the parts share.
--
-- Not modelled: the wiping of Go slices and the pages behind a region, the process hardening, the
-- errors' texts; EIP-712; the signing, recovery and audit services, login and
-- refresh with their tokens and passwords, the management of users and roles, the HTTP adapters, the generated
-- database client and the other repositories.
pub mod Access
pub mod Address
pub mod Base
pub mod Cryptox
pub mod Curve
pub mod Derivation
pub mod Ecdsa
pub mod Fault
pub mod HdKey
pub mod Hex
pub mod Keccak
pub mod KeyRoots
pub mod Retention
pub mod Rlp
pub mod Scalar
pub mod Seal
pub mod SecretStore
pub mod SecureMem
pub mod Signature
pub mod Transaction
pub mod Wallet
