-- ===== src/Tests.antt =====
-- Runs of the model at concrete inputs, and each theorem at an input that meets its hypotheses.
mod Instances
mod Keyring
mod KeyMutex
mod Cache
mod Transport
mod Messages
mod ManifestV1
mod OciRef
mod Options
mod Registries
mod Client
mod Paging
mod SecretServer
mod Copier
mod BlobInput
