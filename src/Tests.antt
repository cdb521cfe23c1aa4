-- ===== src/Tests.antt =====
-- Concrete instances of the parameters, and the theorems applied to them.
mod Memory
mod Inputs
mod Examples
mod RpcExamples
mod Loopback
mod Transfers
mod ClientExamples
mod ServiceExamples
mod WireExamples
mod ContractExamples
mod PutExamples
mod LongNames
mod GetExamples
